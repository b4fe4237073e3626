-- ===== src/Prelude/Bytes.antt =====
-- Bytes as numbers, and numbers as bytes: `to_be_bytes` and `from_be_bytes` on u32, and
-- `String::from_utf8_lossy`, which keeps the bytes of well-formed characters and writes the
-- replacement character for the others.
use open_broadcast_network.Prelude.Tests.{ltb, leb, nat_beq, if◌then◌else◌}
use open_broadcast_network.Prelude.Lists.{length, drop, All}
use Prim.Native.Nat.{ℕ, zero, suc, ◌+◌, ◌-◌, ◌*◌, ◌/◌, ◌%◌, ◌^◌, ◌<◌}
use mathlib.Core.Path.{◌≡◌, refl, ap, ◌∙◌}
use mathlib.Core.Bool.{Bool, true, false, ◌&&◌}
use mathlib.Core.List.{List, [], ◌∷◌, ◌++◌}
use native.Mathlib.Omega.{arith}
use open_broadcast_network.Prelude.Class.{Eq, nat_eq, list_beq, list_beq_iff}

-- `n.to_be_bytes()` on u32.
abbrev pub be32 : ℕ → List ℕ
be32 n = n / 2 ^ 24 % 256 ∷ n / 2 ^ 16 % 256 ∷ n / 2 ^ 8 % 256 ∷ n % 256 ∷ []

-- `n.to_be_bytes()` on u64.
abbrev pub be64 : ℕ → List ℕ
be64 n = be32 (n / 2 ^ 32) ++ be32 (n % 2 ^ 32)

-- `u32::from_be_bytes([a, b, c, d])`
unfoldable pub from_be32 : ℕ → ℕ → ℕ → ℕ → ℕ
from_be32 a b c d = ((a * 256 + b) * 256 + c) * 256 + d

pub from_be32-be32 :
    (n : ℕ)
    → n < 2 ^ 32
    → from_be32 (n / 2 ^ 24 % 256) (n / 2 ^ 16 % 256) (n / 2 ^ 8 % 256) (n % 256) ≡ n
unfolding from_be32
from_be32-be32 n h = omega arith

-- A continuation byte in the range that the lead byte allows.
abbrev between : ℕ → ℕ → ℕ → Bool
between lo hi b = leb lo b && leb b hi

abbrev second_low : ℕ → ℕ
second_low lead = if nat_beq lead 0xe0 then 0xa0 else if nat_beq lead 0xf0 then 0x90 else 0x80

abbrev second_high : ℕ → ℕ
second_high lead = if nat_beq lead 0xed then 0x9f else if nat_beq lead 0xf4 then 0x8f else 0xbf

-- How many continuation bytes a lead byte asks for; 0 for a byte that leads nothing.
abbrev following : ℕ → ℕ
following lead =
    if between 0xc2 0xdf lead
    then 1
    else if between 0xe0 0xef lead
    then 2
    else if between 0xf0 0xf4 lead
    then 3
    else 0

abbrev replacement : List ℕ
replacement = 0xef ∷ 0xbf ∷ 0xbd ∷ []

-- `waiting` continuation bytes of a character that began with `held` are still to come; the next
-- one lies between `lo` and `hi`.
unfoldable pub lossy_from : ℕ → ℕ → ℕ → List ℕ → List ℕ → List ℕ
lossy_from zero lo hi held [] = []
lossy_from (suc waiting) lo hi held [] = replacement
lossy_from zero lo hi held (b ∷ bs) =
    let start = lossy_from (following b) (second_low b) (second_high b) (b ∷ []) bs in
    let alone = lossy_from zero 0x80 0xbf [] bs in
    if ltb b 0x80
    then b ∷ alone
    else if nat_beq (following b) 0
    then replacement ++ alone
    else start
lossy_from (suc waiting) lo hi held (b ∷ bs) =
    let start = lossy_from (following b) (second_low b) (second_high b) (b ∷ []) bs in
    let alone = lossy_from zero 0x80 0xbf [] bs in
    let more = lossy_from waiting 0x80 0xbf (held ++ b ∷ []) bs in
    if between lo hi b
    then (if nat_beq waiting 0 then held ++ b ∷ alone else more)
    else replacement
      ++ (if ltb b 0x80
          then b ∷ alone
          else if nat_beq (following b) 0
          then replacement ++ alone
          else start)

unfoldable pub from_utf8_lossy : List ℕ → List ℕ
unfolding lossy_from
from_utf8_lossy bs = lossy_from zero 0x80 0xbf [] bs

abbrev pub IsAscii : ℕ → Type 0
IsAscii b = b < 0x80

-- ASCII is kept.
pub from_utf8_lossy-IsAscii : (bs : List ℕ) → All IsAscii bs → from_utf8_lossy bs ≡ bs
unfolding from_utf8_lossy lossy_from
from_utf8_lossy-IsAscii [] h = refl
from_utf8_lossy-IsAscii (b ∷ bs) (h, hs) = ground (arith, from_utf8_lossy-IsAscii bs hs)

-- The byte at an index; the callers test that there is one.
unfoldable pub byte_at : ℕ → List ℕ → ℕ
byte_at n [] = 0
byte_at zero (b ∷ bs) = b
byte_at (suc n) (b ∷ bs) = byte_at n bs

-- The big-endian u32 at an offset.
unfoldable pub read_be32 : ℕ → List ℕ → ℕ
unfolding byte_at from_be32
read_be32 o bs =
    from_be32 (byte_at o bs) (byte_at (o + 1) bs) (byte_at (o + 2) bs) (byte_at (o + 3) bs)

pub byte_at-drop : (o n : ℕ) (bs : List ℕ) → byte_at n (drop o bs) ≡ byte_at (o + n) bs
unfolding byte_at
byte_at-drop zero n bs = ap (λ (k : ℕ). byte_at k bs) (omega arith)
byte_at-drop (suc o) n [] = refl
byte_at-drop (suc o) n (b ∷ bs) =
    byte_at-drop o n bs ∙ ap (λ (k : ℕ). byte_at k (b ∷ bs)) {x = suc (o + n)} (omega arith)

pub read_be32-drop : (o : ℕ) (bs : List ℕ) → read_be32 0 (drop o bs) ≡ read_be32 o bs
unfolding read_be32
read_be32-drop o bs =
    rw
      (
        byte_at-drop o 0 bs,
        byte_at-drop o 1 bs,
        byte_at-drop o 2 bs,
        byte_at-drop o 3 bs,
        ap (λ (k : ℕ). byte_at k bs) {x = o + 0} {y = o} (omega arith),
      )
      refl

pub drop-drop : (m n : ℕ) (bs : List ℕ) → drop n (drop m bs) ≡ drop (m + n) bs
drop-drop zero n bs = ap (λ (k : ℕ). drop k bs) (omega arith)
drop-drop (suc m) zero [] = ap (λ (k : ℕ). drop k []) {x = suc (m + 0)} (omega arith)
drop-drop (suc m) (suc n) [] = ap (λ (k : ℕ). drop k []) {x = suc (m + suc n)} (omega arith)
drop-drop (suc m) n (b ∷ bs) =
    drop-drop m n bs ∙ ap (λ (k : ℕ). drop k (b ∷ bs)) {x = suc (m + n)} (omega arith)

pub read_be32-be32 : (n : ℕ) (rest : List ℕ) → n < 2 ^ 32 → read_be32 0 (be32 n ++ rest) ≡ n
unfolding read_be32 byte_at
read_be32-be32 n rest h = from_be32-be32 n h

instance abbrev pub bytes_eq : Eq (List ℕ)
bytes_eq = record { beq_iff = list_beq_iff; beq = list_beq }

-- `str::starts_with` and `str::ends_with`, on the UTF-8 bytes of the texts.
unfoldable pub starts_with : List ℕ → List ℕ → Bool
starts_with bytes [] = true
starts_with [] (p ∷ ps) = false
starts_with (b ∷ bs) (p ∷ ps) = nat_beq b p && starts_with bs ps

unfoldable pub ends_with : List ℕ → List ℕ → Bool
ends_with bytes suffix =
    leb (length suffix) (length bytes)
    && list_beq (drop (length bytes - length suffix) bytes) suffix

-- The decimal digits of a u32, which has ten at most.
unfoldable pub digits : ℕ → ℕ → List ℕ
digits zero n = []
digits (suc fuel) n =
    let high = digits fuel (n / 10) in
    if ltb n 10 then (48 + n) ∷ [] else high ++ (48 + n % 10) ∷ []

unfoldable pub decimal : ℕ → List ℕ
unfolding digits
decimal n = digits 10 n
