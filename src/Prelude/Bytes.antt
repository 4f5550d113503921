-- ===== src/Prelude/Bytes.antt =====
-- Texts as their bytes.
use Prim.Native.Char.{code}
use Prim.Native.String.{String}
use trading_platform.Prelude.{
  ℕ, ◌≡◌, ◌↔◌, refl, Bool, true, false, ◌&&◌, List, [], ◌∷◌, arith, ◌==◌,
}
use trading_platform.Prelude.Dict.{Eq}

abbrev pub Text : Type 0
Text = List ℕ

-- The bytes of an ASCII text.
abbrev pub bytes_of : String → Text
bytes_of String.[] = []
bytes_of (String.◌∷◌ c s) = code c ∷ bytes_of s

abbrev text_beq : Text → Text → Bool
text_beq [] [] = true
text_beq [] (b ∷ bs) = false
text_beq (a ∷ as') [] = false
text_beq (a ∷ as') (b ∷ bs) = (a == b) && text_beq as' bs

pub text_beq_iff : (s t : Text) → (text_beq s t ≡ true) ↔ (s ≡ t)
text_beq_iff [] [] = (λ h. refl, λ h. refl)
text_beq_iff [] (b ∷ bs) = (λ h. absurd (cc), λ h. absurd (cc))
text_beq_iff (a ∷ as') [] = (λ h. absurd (cc), λ h. absurd (cc))
text_beq_iff (a ∷ as') (b ∷ bs) =
    let ih = text_beq_iff as' bs in
    (
      λ h. ground (arith, ih.0, h),
      λ h. let tails : as' ≡ bs = cc in let heads : a ≡ b = cc in ground (arith, ih.1 tails, heads),
    )

instance abbrev pub text_eq : Eq Text
text_eq = record { beq = text_beq; beq_iff = text_beq_iff }
