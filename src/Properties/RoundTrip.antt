-- ===== src/Properties/RoundTrip.antt =====
-- IDs that are stored as properties are read back.
use tns_csi.Common.{ℤ, IsInt64, atoi-itoa, ◌≡◌, refl}
use tns_csi.Properties.{string_to_int, int_to_string}

-- A 64-bit integer that intToString writes as a property is the one that StringToInt reads from it.
pub string_to_int-int_to_string : (i : ℤ) → IsInt64 i → string_to_int (int_to_string i) ≡ i
unfolding string_to_int int_to_string
string_to_int-int_to_string i h = rw (atoi-itoa i h, string_to_int) refl
