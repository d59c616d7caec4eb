-- ===== src/Util/Format/Tests.antt =====
-- Languages, numbers and padded texts.
use ntfy.Base.{◌≡◌, refl}
use ntfy.Util.Format.{
  get_kebab_case_lang_str, format_number, padded_base64, random_alphanumeric_string,
}

kebab : get_kebab_case_lang_str "zh_Hant" ≡ "zh-Hant"
unfolding get_kebab_case_lang_str
kebab = refl

thousands : format_number (λ n. "") 250000 ≡ "250k"
unfolding format_number
thousands = refl

padded : padded_base64 "a-_bc" ≡ "a+/bc==="
unfolding padded_base64
padded = refl

drawn : random_alphanumeric_string (λ i. i) 3 ≡ "abc"
unfolding random_alphanumeric_string
drawn = refl
