-- ===== src/Util/Bytes/Tests.antt =====
-- Numbers of bytes, with the exponents that they have.
use ntfy.Base.{◌≡◌, refl}
use ntfy.Base.Decimal.{to_string}
use ntfy.Util.Bytes.{format_bytes, to_fixed, parsed}

kilobytes : format_bytes (λ bytes. 1) 1536 2 ≡ "1.5 KB"
unfolding format_bytes to_fixed parsed to_string
kilobytes = refl

rounded_up : format_bytes (λ bytes. 1) 1048575 2 ≡ "1024 KB"
unfolding format_bytes to_fixed parsed to_string
rounded_up = refl

without_decimals : format_bytes (λ bytes. 2) 15728640 0 ≡ "15 MB"
unfolding format_bytes to_fixed parsed to_string
without_decimals = refl

hundredths : format_bytes (λ bytes. 1) 1034 2 ≡ "1.01 KB"
unfolding format_bytes to_fixed parsed to_string
hundredths = refl
