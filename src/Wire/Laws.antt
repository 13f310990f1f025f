-- ===== src/Wire/Laws.antt =====
-- Slices of memory and loads after stores.
use j_sdntrace.Base.{
  leb, le→leb, Bool-cases, length, get_or, take, length-take, take-length, All, ℕ, zero, suc, ◌+◌,
  ◌-◌, ◌*◌, ◌/◌, ◌%◌, ◌^◌, ◌≤◌, ◌<◌, ◌≡◌, refl, ap, ◌∙◌, ◌⊎◌, inl, inr, Bool, true, false, some,
  List, [], ◌∷◌, ◌++◌, arith,
}
use j_sdntrace.Wire.{
  Region, IsBytes, bit, flag, poke, put16, put32, poke_list, get_region, copy_region, from, over,
  slice,
}
use mathlib.Core.Path.{ap₂, fun_ext}

pub length-slice : (r : Region) (i n : ℕ) → length (slice r i n) ≡ n
length-slice r i zero = refl
length-slice r i (suc n) = ap suc (length-slice r (i + 1) n)

pub slice-ext :
    (r s : Region) (i j n : ℕ)
    → ((k : ℕ) → k < n → r (i + k) ≡ s (j + k))
    → slice r i n ≡ slice s j n
slice-ext r s i j zero h = refl
slice-ext r s i j (suc n) h =
    ap₂ ◌∷◌ (ground (arith, h 0 (omega arith)))
      (slice-ext r s (i + 1) (j + 1) n (λ k lt. ground (arith, h (k + 1) (omega arith))))

-- Adjacent slices join.
pub slice-append :
    (r : Region) (i n m j l : ℕ) → j ≡ i + n → l ≡ n + m → slice r i n ++ slice r j m ≡ slice r i l
slice-append r i zero m j l e e' = ground arith
slice-append r i (suc n) m j zero e e' = absurd (omega arith)
slice-append r i (suc n) m j (suc l) e e' =
    ap (◌∷◌ (r i)) (slice-append r (i + 1) n m j l (omega arith) (omega arith))

pub slice-eq :
    (r : Region) (i : ℕ) (ws : List ℕ)
    → ((k : ℕ) → k < length ws → r (i + k) ≡ get_or ws k 0)
    → slice r i (length ws) ≡ ws
slice-eq r i [] h = refl
slice-eq r i (w ∷ ws) h =
    ap₂ ◌∷◌ (ground (arith, h 0 (omega arith)))
      (slice-eq r (i + 1) ws (λ k lt. ground (arith, h (suc k) (omega arith))))

pub get_or-default : (ws : List ℕ) (k d e : ℕ) → k < length ws → get_or ws k d ≡ get_or ws k e
get_or-default [] k d e h = absurd (omega arith)
get_or-default (w ∷ ws) zero d e h = refl
get_or-default (w ∷ ws) (suc k) d e h = get_or-default ws k d e (omega arith)

-- Reading back a whole array that was copied.
pub slice-poke_list :
    (r : Region) (i : ℕ) (vs : List ℕ) → slice (poke_list r i vs) i (length vs) ≡ vs
slice-poke_list r i vs =
    slice-eq (poke_list r i vs) i vs (λ k lt. ground (arith, get_or-default vs k (r (i + k)) 0))

pub get_or-le : (ws : List ℕ) (k d : ℕ) → All (λ w. w < 256) ws → d < 256 → get_or ws k d < 256
get_or-le [] k d h hd = hd
get_or-le (w ∷ ws) zero d h hd = h.0
get_or-le (w ∷ ws) (suc k) d h hd = get_or-le ws k d h.1 hd

pub poke_list-IsBytes :
    (r : Region) (i : ℕ) (vs : List ℕ)
    → IsBytes r
    → All (λ w. w < 256) vs
    → IsBytes (poke_list r i vs)
poke_list-IsBytes r i vs hr hv k = ground (arith, hr k, get_or-le vs (k - i) (r k) hv (hr k))

pub poke-IsBytes : (r : Region) (i v : ℕ) → IsBytes r → v < 256 → IsBytes (poke r i v)
poke-IsBytes r i v hr hv k = ground (arith, hr k)

pub put16-IsBytes : (r : Region) (i v : ℕ) → IsBytes r → IsBytes (put16 r i v)
put16-IsBytes r i v hr k = ground (arith, hr k)

pub put32-IsBytes : (r : Region) (i v : ℕ) → IsBytes r → IsBytes (put32 r i v)
put32-IsBytes r i v hr =
    put16-IsBytes (put16 r i (v % 65536)) (i + 2) (v / 65536 % 65536)
      (put16-IsBytes r i (v % 65536) hr)

pub All-take : (n : ℕ) (vs : List ℕ) → All (λ w. w < 256) vs → All (λ w. w < 256) (take n vs)
All-take zero vs h = tt
All-take (suc n) [] h = tt
All-take (suc n) (v ∷ vs) h = (h.0, All-take n vs h.1)

pub get_region-IsBytes :
    (array : List ℕ) (n : ℕ) (r : Region) (i : ℕ)
    → IsBytes r
    → All (λ w. w < 256) array
    → IsBytes (get_region array n r i)
unfolding get_region
get_region-IsBytes array n r i hr ha = elim (Bool-cases (leb n (length array))) [
  | inl e ↦ rw e (poke_list-IsBytes r i (take n array) hr (All-take n array ha))
  | inr e ↦ rw e hr
]

-- A copy of an array that is long enough can be read back.
pub slice-get_region :
    (array : List ℕ) (n : ℕ) (r : Region) (i : ℕ)
    → n ≤ length array
    → slice (get_region array n r i) i n ≡ take n array
unfolding get_region
slice-get_region array n r i h =
    rw (le→leb n (length array) h)
      (rw (length-take n array h) at (slice-poke_list r i (take n array)))

-- Below the copy nothing changes.
pub get_region-below :
    (array : List ℕ) (n : ℕ) (r : Region) (i k : ℕ) → k < i → get_region array n r i k ≡ r k
unfolding get_region
get_region-below array n r i k h = ground arith

-- A flag as a digit, and a digit as a flag.
pub flag_digit : (b : Bool) (v : ℕ) → (flag b v ≡ v * flag b 1) × (flag b 1 ≤ 1)
flag_digit b v = ground arith

pub bit-digit : (b : Bool) (x k : ℕ) → x / 2 ^ k % 2 ≡ flag b 1 → bit x k ≡ b
bit-digit true x k e = ground arith
bit-digit false x k e = ground arith

get_or-past : (ws : List ℕ) (k d : ℕ) → length ws ≤ k → get_or ws k d ≡ d
get_or-past [] k d h = refl
get_or-past (w ∷ ws) zero d h = absurd (omega arith)
get_or-past (w ∷ ws) (suc k) d h = get_or-past ws k d (omega arith)

length-take_le : (n : ℕ) (xs : List ℕ) → length (take n xs) ≤ n
length-take_le zero xs = omega arith
length-take_le (suc n) [] = omega arith
length-take_le (suc n) (x ∷ xs) = omega (arith, length-take_le n xs)

-- Above the copy nothing changes.
pub get_region-above :
    (array : List ℕ) (n : ℕ) (r : Region) (i k : ℕ) → i + n ≤ k → get_region array n r i k ≡ r k
unfolding get_region
get_region-above array n r i k h =
    ground (arith, get_or-past (take n array) (k - i) (r k) (omega (arith, length-take_le n array)))

-- A copy of a whole array is read back whole.
pub slice-get_region_whole :
    (array : List ℕ) (n : ℕ) (r : Region) (i : ℕ)
    → length array ≡ n
    → slice (get_region array n r i) i n ≡ array
slice-get_region_whole array n r i e =
    slice-get_region array n r i (omega arith) ∙ rw (← e) (take-length array)

-- A copy does not show in a slice that it does not touch.
pub slice-get_region_off :
    (array : List ℕ) (n : ℕ) (r : Region) (i j m : ℕ)
    → (j + m ≤ i) ⊎ (i + n ≤ j)
    → slice (get_region array n r i) j m ≡ slice r j m
slice-get_region_off array n r i j m (inl h) =
    slice-ext (get_region array n r i) r j j m
      (λ k lt. get_region-below array n r i (j + k) (omega arith))
slice-get_region_off array n r i j m (inr h) =
    slice-ext (get_region array n r i) r j j m
      (λ k lt. get_region-above array n r i (j + k) (omega arith))

-- Where the copy fits, `copy_region` does not fail.
pub copy_region-fits :
    (room : ℕ) (array : List ℕ) (n : ℕ) (r : Region) (i : ℕ)
    → i + n ≤ room
    → copy_region room array n r i ≡ some (get_region array n r i)
unfolding copy_region
copy_region-fits room array n r i h = ground arith

-- What was put at the n-th byte is read there.
pub from-over : (r s : Region) (n : ℕ) → from (over r n s) n ≡ s
from-over r s n = fun_ext λ k. ground (arith, ap s (omega_sub n k))
  where
    omega_sub : (n k : ℕ) → n + k - n ≡ k
    omega_sub n k = omega arith

pub over-IsBytes : (r s : Region) (n : ℕ) → IsBytes r → IsBytes s → IsBytes (over r n s)
over-IsBytes r s n hr hs k = ground (arith, hr k, hs (k - n))

pub slice-from : (r : Region) (m i n j : ℕ) → j ≡ m + i → slice (from r m) i n ≡ slice r j n
slice-from r m i n j e = slice-ext (from r m) r i j n (λ k lt. ap r (omega arith))
