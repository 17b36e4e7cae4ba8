-- ===== src/Tests/Utf8.antt =====
-- is_valid_utf8 at a letter of two bytes and one of one.
use ht2mp.Prelude.{◌≡◌, arith, true, [], ◌∷◌, ◌↔◌}
use ht2mp.Protocol.Utf8.{is_valid_utf8}
use ht2mp.Protocol.Utf8.Scalars.{Encodes, is_valid_utf8_lem}

is_valid_utf8_lem_example :
    (is_valid_utf8 (0xd0 ∷ 0x9e ∷ 65 ∷ []) ≡ true) ↔ Encodes (0xd0 ∷ 0x9e ∷ 65 ∷ [])
is_valid_utf8_lem_example =
    is_valid_utf8_lem (0xd0 ∷ 0x9e ∷ 65 ∷ []) (omega arith, (omega arith, (omega arith, tt)))
