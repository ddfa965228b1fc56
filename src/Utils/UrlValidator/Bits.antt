-- ===== src/Utils/UrlValidator/Bits.antt =====
-- The comparison under a prefix, byte by byte and with a mask, is that of the first bits.
use Prim.Native.Nat.{bit_and}
use signalwire_agents_cpp.Prelude.{
  ℕ, zero, suc, ◌+◌, ◌-◌, ◌*◌, ◌/◌, ◌%◌, ◌^◌, ◌≤◌, ◌<◌, ◌≡◌, ◌↔◌, refl, sym, ap, ap₂, ◌∙◌, Bool,
  true, false, not, ◌∷◌, [], ◌++◌, List, Bytes, length, take, drop, str_eq, str_eq_sound, ◌==◌,
  ==_iff, if◌then◌else◌, All, IsByte, arith, passes_under, passes_under_at,
}
use signalwire_agents_cpp.Utils.UrlValidator.{same_bytes, same_rem, same_prefix, mask_of}

-- The bits of a byte, the highest first, and of a list of bytes.
abbrev pub bits_of_byte : ℕ → List ℕ
bits_of_byte x =
    x / 128 % 2
    ∷ x / 64 % 2
    ∷ x / 32 % 2
    ∷ x / 16 % 2
    ∷ x / 8 % 2
    ∷ x / 4 % 2
    ∷ x / 2 % 2
    ∷ x % 2
    ∷ []

pub bits : Bytes → List ℕ
bits [] = []
bits (x ∷ s) = bits_of_byte x ++ bits s

-- The value of a list of bits, the highest first.
abbrev value : ℕ → List ℕ → ℕ
value n [] = n
value n (b ∷ bs) = value (2 * n + b) bs

value_table : passes_under (λ x. value 0 (bits_of_byte x) == x) 256 ≡ true
unfolding passes_under
value_table = refl

-- At `8 * x + rem`: the masked byte has the same first bits, and they give the masked byte.
mask_table :
    passes_under
      (λ n.
        str_eq
          (take (n % 8) (bits_of_byte (n / 8)))
          (take (n % 8) (bits_of_byte (bit_and (n / 8) (mask_of (n % 8))))))
      2048
    ≡ true
unfolding passes_under str_eq
mask_table = refl

masked_table :
    passes_under
      (λ n.
        value 0 (take (n % 8) (bits_of_byte (n / 8))) * 2 ^ (8 - n % 8)
        == bit_and (n / 8) (mask_of (n % 8)))
      2048
    ≡ true
unfolding passes_under
masked_table = refl

bits_of_byte_inj : (x y : ℕ) → IsByte x → IsByte y → bits_of_byte x ≡ bits_of_byte y → x ≡ y
bits_of_byte_inj x y hx hy e =
    let back = λ (z : ℕ) (h : IsByte z).
      (==_iff (value 0 (bits_of_byte z)) z).0
        (passes_under_at (λ x. value 0 (bits_of_byte x) == x) 256 z h value_table) in
    sym (back x hx) ∙ ap (value 0) e ∙ back y hy

module _ (rem : ℕ) (h : rem < 8) where
  take_masked :
      (x : ℕ)
      → IsByte x
      → take rem (bits_of_byte x) ≡ take rem (bits_of_byte (bit_and x (mask_of rem)))
  take_masked x hx =
      let q : (x * 8 + rem) / 8 ≡ x = omega arith in
      let r : (x * 8 + rem) % 8 ≡ rem = omega arith in
      str_eq_sound _ _ (
        rw (q, r) at
          (passes_under_at
            (λ n.
              str_eq (take (n % 8) (bits_of_byte (n / 8)))
                (take (n % 8) (bits_of_byte (bit_and (n / 8) (mask_of (n % 8))))))
            2048 (x * 8 + rem) (omega arith) mask_table))

  masked_value :
      (x : ℕ)
      → IsByte x
      → value 0 (take rem (bits_of_byte x)) * 2 ^ (8 - rem) ≡ bit_and x (mask_of rem)
  masked_value x hx =
      let q : (x * 8 + rem) / 8 ≡ x = omega arith in
      let r : (x * 8 + rem) % 8 ≡ rem = omega arith in
      (==_iff _ _).0 (
        rw (q, r) at
          (passes_under_at
            (λ n.
              value 0 (take (n % 8) (bits_of_byte (n / 8))) * 2 ^ (8 - n % 8)
              == bit_and (n / 8) (mask_of (n % 8)))
            2048 (x * 8 + rem) (omega arith) masked_table))

  masked_iff :
      (x y : ℕ)
      → IsByte x
      → IsByte y
      → (bit_and x (mask_of rem) ≡ bit_and y (mask_of rem))
        ↔ (take rem (bits_of_byte x) ≡ take rem (bits_of_byte y))
  masked_iff x y hx hy = (
    λ e. take_masked x hx ∙ ap (λ z. take rem (bits_of_byte z)) e ∙ sym (take_masked y hy),
    λ e. sym (masked_value x hx) ∙ ap (λ bs. value 0 bs * 2 ^ (8 - rem)) e ∙ masked_value y hy,
  )

take_within : (n : ℕ) (xs ys : List ℕ) → n ≤ length xs → take n (xs ++ ys) ≡ take n xs
take_within zero xs ys le = refl
take_within (suc n) [] ys le = absurd (omega arith)
take_within (suc n) (x ∷ xs) ys le = ap (◌∷◌ x) (take_within n xs ys (omega arith))

eight_more : (n x : ℕ) (a : Bytes) → take (8 + n) (bits (x ∷ a)) ≡ bits_of_byte x ++ take n (bits a)
unfolding bits
eight_more n x a =
    let e : 8 + n ≡ suc (suc (suc (suc (suc (suc (suc (suc n))))))) = omega arith in rw e refl

-- A whole byte in front.
whole_iff :
    (n x y : ℕ) (a b : Bytes)
    → IsByte x
    → IsByte y
    → (take (8 + n) (bits (x ∷ a)) ≡ take (8 + n) (bits (y ∷ b)))
      ↔ ((x ≡ y) × (take n (bits a) ≡ take n (bits b)))
whole_iff n x y a b hx hy =
    rw (eight_more n x a, eight_more n y b)
      (
        λ e. (bits_of_byte_inj x y hx hy (ap (take 8) e), ap (drop 8) e),
        λ h. ap₂ (λ z u. bits_of_byte z ++ u) h.0 h.1,
      )

-- The last bits, of a byte in part.
same_rem_iff :
    (rem : ℕ) (a b : Bytes)
    → rem < 8
    → All IsByte a
    → All IsByte b
    → length a ≡ length b
    → rem ≤ 8 * length a
    → (same_rem 0 rem a b ≡ true) ↔ (take rem (bits a) ≡ take rem (bits b))
unfolding same_rem bits
same_rem_iff zero a b h ha hb same le = (λ e. refl, λ e. refl)
same_rem_iff (suc rem) [] b h ha hb same le = absurd (omega arith)
same_rem_iff (suc rem) (x ∷ a) [] h ha hb same le = absurd (omega arith)
same_rem_iff (suc rem) (x ∷ a) (y ∷ b) h (hx, ha) (hy, hb) same le =
    let e = masked_iff (suc rem) h x y hx hy in
    rw
      (
        take_within (suc rem) (bits_of_byte x) (bits a) (omega arith),
        take_within (suc rem) (bits_of_byte y) (bits b) (omega arith),
      )
      (λ t. e.0 (ground (arith, t)), λ t. ground (arith, e.1 t))

guards_iff :
    (q s m : Bool)
    → ((if not (if not q then false else s) then false else m) ≡ true)
      ↔ ((q ≡ true) × ((if not s then false else m) ≡ true))
guards_iff q s m = ground arith

-- Whole bytes, and the rest under a mask.
parts_iff :
    (full rem : ℕ) (a b : Bytes)
    → rem < 8
    → All IsByte a
    → All IsByte b
    → length a ≡ length b
    → 8 * full + rem ≤ 8 * length a
    → ((if not (same_bytes full a b) then false else same_rem full rem a b) ≡ true)
      ↔ (take (8 * full + rem) (bits a) ≡ take (8 * full + rem) (bits b))
unfolding same_bytes same_rem
parts_iff zero rem a b h ha hb same le =
    let e : 8 * zero + rem ≡ rem = omega arith in
    rw e (same_rem_iff rem a b h ha hb same (omega arith))
parts_iff (suc full) rem [] b h ha hb same le = absurd (omega arith)
parts_iff (suc full) rem (x ∷ a) [] h ha hb same le = absurd (omega arith)
parts_iff (suc full) rem (x ∷ a) (y ∷ b) h (hx, ha) (hy, hb) same le =
    let e : 8 * suc full + rem ≡ 8 + (8 * full + rem) = omega arith in
    let w = whole_iff (8 * full + rem) x y a b hx hy in
    let later = parts_iff full rem a b h ha hb (omega arith) (omega arith) in
    let g = guards_iff (x == y) (same_bytes full a b) (same_rem full rem a b) in
    rw e (
      λ t. w.1 ((==_iff x y).0 (g.0 t).0, later.0 (g.0 t).1),
      λ t. g.1 ((==_iff x y).1 (w.0 t).0, later.1 (w.0 t).1),
    )

-- A prefix that both addresses have is the same in both exactly when their first bits are.
pub same_prefix_iff :
    (prefix : ℕ) (a b : Bytes)
    → All IsByte a
    → All IsByte b
    → length a ≡ length b
    → prefix ≤ 8 * length a
    → (same_prefix prefix a b ≡ true) ↔ (take prefix (bits a) ≡ take prefix (bits b))
unfolding same_prefix
same_prefix_iff prefix a b ha hb same le =
    let e : 8 * (prefix / 8) + prefix % 8 ≡ prefix = omega arith in
    rw e at (parts_iff (prefix / 8) (prefix % 8) a b (omega arith) ha hb same (omega arith))
