-- ===== src/Text/Compact.antt =====
-- What `strings.Fields` and `strings.Join` give together: one line with single spaces.
use auto_gardener.Base.{All, All-append, List, [], arith, false, not, refl, ℕ, ◌&&◌, ◌==◌, ◌∷◌, ◌≡◌}
use auto_gardener.Text.{Text, fields, is_space, join, push_rune}

-- A rune that does not end or split a line: no white space but the plain space.
abbrev pub IsInline : ℕ → Type 0
IsInline c = (is_space c && not (c == 32)) ≡ false

abbrev pub IsWord : Text → Type 0
IsWord w = All (λ c. is_space c ≡ false) w

push_rune-IsWord :
    (c : ℕ) (ws : List Text) → is_space c ≡ false → All IsWord ws → All IsWord (push_rune c ws)
push_rune-IsWord c [] h a = ((h, tt), tt)
push_rune-IsWord c (w ∷ ws) h a = ((h, a.0), a.1)

pub fields-IsWord : (s : Text) → All IsWord (fields s)
unfolding fields
fields-IsWord [] = tt
fields-IsWord (c ∷ []) = ground arith
fields-IsWord (c ∷ d ∷ s) =
    ground (arith, fields-IsWord (d ∷ s), push_rune-IsWord c (fields (d ∷ s)))

word-IsInline : (w : Text) → IsWord w → All IsInline w
word-IsInline [] h = tt
word-IsInline (c ∷ w) h = (ground arith, word-IsInline w h.1)

space-IsInline : IsInline 32
unfolding is_space
space-IsInline = refl

pub join-IsInline : (ws : List Text) → All IsWord ws → All IsInline (join (32 ∷ []) ws)
unfolding join
join-IsInline [] h = tt
join-IsInline (w ∷ []) h = word-IsInline w h.0
join-IsInline (w ∷ v ∷ ws) h =
    All-append IsInline w (32 ∷ join (32 ∷ []) (v ∷ ws)) (word-IsInline w h.0)
      (space-IsInline, join-IsInline (v ∷ ws) h.1)
