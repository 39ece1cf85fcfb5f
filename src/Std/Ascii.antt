-- ===== src/Std/Ascii.antt =====
-- A small instance of the standard library for concrete inputs: ASCII letters, addresses accepted
-- as they are, and a base64 that changes nothing.
use lan_qin_email.Prelude.{refl, some, map}
use lan_qin_email.Prelude.Text.{text_eq}
use lan_qin_email.Std.{Std, ascii_lower}

abbrev pub ascii : Std
ascii = record {
  lower = ascii_lower;
  lower_ascii = λ c h. refl;
  equal_fold = λ s t. text_eq (map ascii_lower s) (map ascii_lower t);
  parse_address = some;
  base64_encode = λ s. s;
  base64_decode = some;
  decode-encode = λ s. refl;
}
