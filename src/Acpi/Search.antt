-- ===== src/Acpi/Search.antt =====
-- What the search of module/acpi/rsdt.c finds.
use modit_micro.Base.{
  Bool-cases, ℕ, zero, suc, ◌+◌, ◌*◌, ◌%◌, ◌^◌, ◌<◌, ◌≡◌, ◌⊎◌, inl, inr, refl, sym, ap, ◌∙◌, arith,
  true, false, Option, none, some, ◌==◌, if◌then◌else◌,
}
use modit_micro.Acpi.{has_bytes, rsdsig, search_from, char_value, byte_sum, load_rsdp}

-- The first place of `n` that has the signature, from `p` on in steps of 16, if there is one.
pub record FirstOf (n p : ℕ) (mem : ℕ → ℕ) (found : Option ℕ) : Type 0 where
  pub place : ℕ
  pub missed : (k : ℕ) → k < place → has_bytes rsdsig (p + 16 * k) mem ≡ false
  pub out :
      ((place < n)
        × (has_bytes rsdsig (p + 16 * place) mem ≡ true)
        × (found ≡ some (p + 16 * place)))
      ⊎ ((place ≡ n) × (found ≡ none))

miss_later :
    (p n : ℕ) (mem : ℕ → ℕ)
    → has_bytes rsdsig p mem ≡ false
    → ((k : ℕ) → k < n → has_bytes rsdsig (p + 16 + 16 * k) mem ≡ false)
    → (k : ℕ) → k < suc n
    → has_bytes rsdsig (p + 16 * k) mem ≡ false
miss_later p n mem m f zero h = ap (λ q. has_bytes rsdsig q mem) (omega arith) ∙ m
miss_later p n mem m f (suc k) h =
    ap (λ q. has_bytes rsdsig q mem) (omega arith) ∙ f k (omega arith)

pub search_from-FirstOf : (n p : ℕ) (mem : ℕ → ℕ) → FirstOf n p mem (search_from n p mem)
unfolding search_from
search_from-FirstOf zero p mem = record {
  place = 0;
  missed = λ k h. absurd (omega arith);
  out = inr (refl, refl);
}
search_from-FirstOf (suc n) p mem = elim (Bool-cases (has_bytes rsdsig p mem)) [
  | inl y ↦
      (let here : p + 16 * 0 ≡ p = omega arith in
        record {
          place = 0;
          missed = λ k h. absurd (omega arith);
          out = inl (omega arith, rw here y, rw (y, here) refl);
        })
  | inr m ↦
      (let r = search_from-FirstOf n (p + 16) mem in
        let next : (k : ℕ) → p + 16 + 16 * k ≡ p + 16 * suc k = λ k. omega arith in
        record {
          place = suc r.place;
          missed = miss_later p r.place mem m r.missed;
          out = elim r.out [
            | inl (lt, has, e) ↦ inl (
              omega (arith, lt),
              ap (λ q. has_bytes rsdsig q mem) (sym (next r.place)) ∙ has,
              rw m (e ∙ ap some (next r.place)),
            )
            | inr (eq, e) ↦ inr (ap suc eq, rw m e)
          ];
        })
]

-- The plain sum of the bytes.
pub plain_sum : ℕ → ℕ → (ℕ → ℕ) → ℕ
plain_sum zero p mem = 0
plain_sum (suc n) p mem = mem p + plain_sum n (p + 1) mem

-- The signs of the bytes make no difference to the checksum.
pub byte_sum-plain_sum :
    (n p : ℕ) (mem : ℕ → ℕ)
    → ((a : ℕ) → mem a < 2 ^ 8)
    → byte_sum n p mem % 2 ^ 8 ≡ plain_sum n p mem % 2 ^ 8
unfolding byte_sum plain_sum
byte_sum-plain_sum zero p mem small = refl
byte_sum-plain_sum (suc n) p mem small =
    let rest = byte_sum-plain_sum n (p + 1) mem small in
    let v : char_value (mem p) % 2 ^ 8 ≡ mem p % 2 ^ 8 = ground (arith, small p) in
    omega (arith, rest, v)

-- What `load_rsdp` answers, `found` being the first place with the signature.
pub record Located (virt_base : ℕ) (mem : ℕ → ℕ) (out : Option ℕ) : Type 0 where
  pub found : Option ℕ
  pub first : FirstOf 8192 (0xE0000 + virt_base) mem found
  pub checked : out ≡ elim found [
    | none ↦ none
    | some p ↦ if plain_sum 20 p mem % 2 ^ 8 == 0 then some p else none
  ]

checked_at :
    (found : Option ℕ) (mem : ℕ → ℕ)
    → ((a : ℕ) → mem a < 2 ^ 8)
    → elim found [ none ↦ none | some p ↦ if byte_sum 20 p mem % 2 ^ 8 == 0 then some p else none ]
      ≡ elim found [
        | none ↦ none
        | some p ↦ if plain_sum 20 p mem % 2 ^ 8 == 0 then some p else none
      ]
checked_at none mem small = refl
checked_at (some p) mem small = rw (byte_sum-plain_sum 20 p mem small) refl

-- `load_rsdp` answers the first of the 8192 places from 0xE0000 on, 16 bytes apart, that has the signature,
-- if the 20 bytes there have the sum 0 modulo 256, and nothing otherwise; a later place is not tried.
pub load_rsdp-Located :
    (virt_base : ℕ) (mem : ℕ → ℕ)
    → ((a : ℕ) → mem a < 2 ^ 8)
    → Located virt_base mem (load_rsdp virt_base mem)
unfolding load_rsdp
load_rsdp-Located virt_base mem small = record {
  found = search_from 8192 (0xE0000 + virt_base) mem;
  first = search_from-FirstOf 8192 (0xE0000 + virt_base) mem;
  checked = checked_at (search_from 8192 (0xE0000 + virt_base) mem) mem small;
}
