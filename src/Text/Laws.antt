-- ===== src/Text/Laws.antt =====
-- Comparing texts (Text.antt).
use nda_takehome.Base.{◌≡◌, refl, [], ◌∷◌, true, arith}
use nda_takehome.Text.{Text, text_eq}

pub text_eq_sound : (s t : Text) → text_eq s t ≡ true → s ≡ t
unfolding text_eq
text_eq_sound [] [] h = refl
text_eq_sound [] (d ∷ t) h = ground arith
text_eq_sound (c ∷ s) [] h = ground arith
text_eq_sound (c ∷ s) (d ∷ t) h = ground (arith, text_eq_sound s t)
