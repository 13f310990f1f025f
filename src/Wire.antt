-- ===== src/Wire.antt =====
-- Memory behind a C pointer on a little-endian host: unaligned loads and stores, ntohs and ntohl,
-- and the JNI calls that copy between such memory and a Java byte array.
pub mod Laws
use j_sdntrace.Base.{
  ltb, leb, ◌==◌, if◌then◌else◌, length, get_or, take, ℕ, zero, suc, ◌+◌, ◌-◌, ◌*◌, ◌/◌, ◌%◌, ◌^◌,
  ◌<◌, Bool, not, ◌&&◌, Option, none, some, List, [], ◌∷◌,
}

-- The k-th byte from the pointer.
abbrev pub Region : Type 0
Region = ℕ → ℕ

abbrev pub IsBytes : Region → Type 0
IsBytes r = (k : ℕ) → r k < 256

-- A `u_short` and a `u_int32_t` as the host loads them.
abbrev pub le16 : Region → ℕ → ℕ
le16 r k = r k + 256 * r (k + 1)

abbrev pub le32 : Region → ℕ → ℕ
le32 r k = le16 r k + 65536 * le16 r (k + 2)

-- `ntohs`, `htons`, `ntohl` and `htonl` reverse the bytes.
abbrev pub ntohs : ℕ → ℕ
ntohs x = x % 256 * 256 + x / 256 % 256

abbrev pub ntohl : ℕ → ℕ
ntohl x = ntohs (x % 65536) * 65536 + ntohs (x / 65536 % 65536)

-- `(x & (1 << k)) > 0`
abbrev pub bit : ℕ → ℕ → Bool
bit x k = x / 2 ^ k % 2 == 1

-- What `b ? v : 0` adds.
abbrev pub flag : Bool → ℕ → ℕ
flag b v = if b then v else 0

abbrev pub poke : Region → ℕ → ℕ → Region
poke r i v j = if j == i then v else r j

abbrev pub put8 : Region → ℕ → ℕ → Region
put8 r i v = poke r i (v % 256)

-- A store of a `u_short` and of a `u_int32_t`.
abbrev pub put16 : Region → ℕ → ℕ → Region
put16 r i v = poke (poke r i (v % 256)) (i + 1) (v / 256 % 256)

abbrev pub put32 : Region → ℕ → ℕ → Region
put32 r i v = put16 (put16 r i (v % 65536)) (i + 2) (v / 65536 % 65536)

-- A copy of a whole array to the i-th byte.
abbrev pub poke_list : Region → ℕ → List ℕ → Region
poke_list r i vs j = if ltb j i then r j else get_or vs (j - i) (r j)

-- `GetByteArrayRegion(env, array, 0, n, r + i)`: a length past the array's end throws and copies
-- nothing.
unfoldable pub get_region : List ℕ → ℕ → Region → ℕ → Region
get_region array n r i = if leb n (length array) then poke_list r i (take n array) else r

-- The same into a buffer with `room` bytes from the pointer on: a copy past them is a fault.
unfoldable pub copy_region : ℕ → List ℕ → ℕ → Region → ℕ → Option Region
unfolding get_region
copy_region room array n r i =
    if leb n (length array) && not (leb (i + n) room) then none else some (get_region array n r i)

-- The memory from the n-th byte on, and that memory put back.
abbrev pub from : Region → ℕ → Region
from r n k = r (n + k)

abbrev pub over : Region → ℕ → Region → Region
over r n s j = if ltb j n then r j else s (j - n)

-- The n bytes from the i-th on.
abbrev pub slice : Region → ℕ → ℕ → List ℕ
slice r i zero = []
slice r i (suc n) = r i ∷ slice r (i + 1) n

-- Captured bytes from a pointer on, and how many of them there are.
pub record View : Type 0 where
  pub bytes : Region
  pub size : ℕ

-- `data += n`
abbrev pub skip : View → ℕ → View
skip v n = record { bytes = λ k. v.bytes (n + k); size = v.size - n }

-- Code that reads up to the n-th byte from the pointer; past the captured bytes that is a fault.
abbrev pub within {ℓ} : {A : Type ℓ} → View → ℕ → Option A → Option A
within v n k = if leb n v.size then k else none

-- `NewByteArray` of n bytes and `SetByteArrayRegion(env, array, 0, n, data + i)`.
abbrev pub new_array : View → ℕ → ℕ → Option (List ℕ)
new_array v i n = within v (i + n) (some (slice v.bytes i n))

infixl 5 ◌>>=◌
abbrev pub ◌>>=◌ {ℓ κ} : {A : Type ℓ} {B : Type κ} → Option A → (A → Option B) → Option B
none >>= f = none
some a >>= f = f a
