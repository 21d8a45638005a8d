-- ===== src/Tests/Errors.antt =====
-- A text whose 126th byte is inside a character.
use Prim.Native.String
use trinci.Base.{◌⊎◌, min, String}
use trinci.Node.Errors.{format_error_string}
use trinci.Node.Errors.Cut.{IsCut, IsInside, format_error_string_lem}

abbrev long_text : String
long_text =
    "12345678901234567890123456789012345678901234567890123456789012345678901234567890123456789012345678901234567890123456789012345à"

format_error_string_example :
    IsCut (min (String.len long_text) 126) long_text (format_error_string long_text)
    ⊎ IsInside 126 long_text (format_error_string long_text)
format_error_string_example = format_error_string_lem long_text
