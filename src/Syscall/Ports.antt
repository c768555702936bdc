-- ===== src/Syscall/Ports.antt =====
-- The ports that `syscall_reqio` opens and `syscall_blkio` blocks, in module/syscall/main.c.
use modit_micro.Base.{
  Bool-cases, true_ne_false, ℕ, zero, suc, ◌+◌, ◌-◌, ◌/◌, ◌%◌, ◌^◌, ◌≤◌, ◌<◌, ◌≡◌, refl, sym, ◌∙◌,
  ◌⊎◌, inl, inr, Bool, true, false, ◌&&◌, arith, ltb, leb, ◌==◌, if◌then◌else◌,
}
use modit_micro.Base.Bits.{bit, bit-le, bit-bit_and, bit-bit_or, bit-pow, bit-mask}
use modit_micro.User.{UserTask}
use modit_micro.Kernel.{Kernel, Outcome, returns}
use modit_micro.Syscall.{
  minus, lacks, user_perm_io, open_port, block_port, port_loop, change_ports, syscall_reqio,
  syscall_blkio,
}

-- What the processor reads: a port is blocked when its bit is 1.
abbrev pub port_blocked : (ℕ → ℕ) → ℕ → Bool
port_blocked iobm q = bit (q % 8) (iobm (q / 8)) == 1

port_blocked-open_port :
    (p q : ℕ) (iobm : ℕ → ℕ)
    → port_blocked (open_port p iobm) q ≡ (if p == q then false else port_blocked iobm q)
unfolding open_port
port_blocked-open_port p q iobm = ground (
  arith,
  bit-bit_and (q % 8) (iobm (p / 8)) (2 ^ 8 - 1 - 2 ^ (p % 8)),
  bit-mask 8 (q % 8) (p % 8) (omega arith) (omega arith),
  bit-le (q % 8) (iobm (p / 8)),
)

port_blocked-block_port :
    (p q : ℕ) (iobm : ℕ → ℕ)
    → port_blocked (block_port p iobm) q ≡ (if p == q then true else port_blocked iobm q)
unfolding block_port
port_blocked-block_port p q iobm = ground (
  arith,
  bit-bit_or (q % 8) (iobm (p / 8)) (2 ^ (p % 8)),
  bit-pow (q % 8) (p % 8),
  bit-le (q % 8) (iobm (p / 8)),
)

abbrev pub in_ports : ℕ → ℕ → ℕ → Bool
in_ports base len q = leb base q && ltb q (base + len)

-- `out` is the answer 0, and exactly the ports of the range got the state `b`.
pub record PortsSet {T : Type 0} (b : Bool) (base len : ℕ) (k : Kernel T) (out : Outcome T ℕ)
    : Type 0 where
  pub iobm : ℕ → ℕ
  pub done : out ≡ returns 0 (record k { iobm = iobm })
  pub ports :
      (q : ℕ) → port_blocked iobm q ≡ (if in_ports base len q then b else port_blocked k.iobm q)

module _ (b : Bool) (body : ℕ → (ℕ → ℕ) → ℕ → ℕ)
    (bits : (p q : ℕ) (iobm : ℕ → ℕ)
      → port_blocked (body p iobm) q ≡ (if p == q then b else port_blocked iobm q)) where
  port_loop-ports :
      (n p q : ℕ) (iobm : ℕ → ℕ)
      → port_blocked (port_loop body n p iobm) q
        ≡ (if in_ports p n q then b else port_blocked iobm q)
  unfolding port_loop
  port_loop-ports zero p q iobm = ground arith
  port_loop-ports (suc n) p q iobm =
      ground (arith, port_loop-ports n (p + 1) q (body p iobm), bits p q iobm)

  -- The answers of the two calls on ports, on every branch.
  change_ports_cases :
      {T : Type 0} (base len : ℕ) (utsk : UserTask) (k : Kernel T)
      → ((0xFF < base + len) × (change_ports body base len utsk k ≡ returns (minus 2) k))
        ⊎ (((base + len ≤ 0xFF)
              × (lacks user_perm_io utsk ≡ true)
              × (change_ports body base len utsk k ≡ returns (minus 1) k))
            ⊎ ((base + len ≤ 0xFF)
                × (lacks user_perm_io utsk ≡ false)
                × PortsSet b base len k (change_ports body base len utsk k)))
  unfolding change_ports
  change_ports_cases base len utsk k = elim (Bool-cases (ltb 0xFF (base + len))) [
    | inl y ↦ inl (ground arith, rw y refl)
    | inr n ↦
        (let le : base + len ≤ 0xFF = ground arith in
          elim (Bool-cases (lacks user_perm_io utsk)) [
            | inl y ↦ inr (inl (le, y, rw (n, y) refl))
            | inr m ↦ inr (
                inr (
                  le,
                  m,
                  record {
                    iobm = port_loop body len base k.iobm;
                    done = rw (n, m) refl;
                    ports = λ q. port_loop-ports len base q k.iobm;
                  },
                ))
          ])
  ]

-- What a call on ports answers and does.
abbrev pub PortCall : {T : Type 0} → Bool → ℕ → ℕ → UserTask → Kernel T → Outcome T ℕ → Type 0
PortCall b base len utsk k out =
    ((0xFF < base + len) × (out ≡ returns (minus 2) k))
    ⊎ (((base + len ≤ 0xFF) × (lacks user_perm_io utsk ≡ true) × (out ≡ returns (minus 1) k))
        ⊎ ((base + len ≤ 0xFF) × (lacks user_perm_io utsk ≡ false) × PortsSet b base len k out))

-- `reqio` answers -2 for a range that does not end below port 0xFF and otherwise -1 without the
-- permission; in all other cases it opens exactly the ports of the range. `blkio` blocks them likewise.
pub port_calls :
    {T : Type 0} (base len : ℕ) (utsk : UserTask) (k : Kernel T)
    → PortCall false base len utsk k (syscall_reqio base len utsk k)
      × PortCall true base len utsk k (syscall_blkio base len utsk k)
unfolding syscall_reqio syscall_blkio
port_calls base len utsk k = (
  change_ports_cases false open_port port_blocked-open_port base len utsk k,
  change_ports_cases true block_port port_blocked-block_port base len utsk k,
)

allowed_call :
    {T : Type 0} (b : Bool) (base len : ℕ) (utsk : UserTask) (k : Kernel T) (out : Outcome T ℕ)
    → base + len ≤ 0xFF
    → lacks user_perm_io utsk ≡ false
    → PortCall b base len utsk k out
    → PortsSet b base len k out
allowed_call b base len utsk k out le io (inl (far, e)) = absurd (omega arith)
allowed_call b base len utsk k out le io (inr (inl (l, no_io, e))) =
    absurd (true_ne_false (sym no_io ∙ io))
allowed_call b base len utsk k out le io (inr (inr (l, m, s))) = s

-- A range of ports is opened and blocked again.
pub record Reblocked {T : Type 0} (base len : ℕ) (utsk : UserTask) (k : Kernel T) : Type 0 where
  opened : ℕ → ℕ
  closed : ℕ → ℕ
  opens : syscall_reqio base len utsk k ≡ returns 0 (record k { iobm = opened })
  closes :
      syscall_blkio base len utsk (record k { iobm = opened })
      ≡ returns 0 (record k { iobm = closed })
  ports : (q : ℕ) → port_blocked closed q ≡ port_blocked k.iobm q

-- Where all ports of the range are blocked, a task with the permission that opens them by `reqio` and
-- then calls `blkio` has every port in the state that it was in.
pub reqio-blkio :
    {T : Type 0} (base len : ℕ) (utsk : UserTask) (k : Kernel T)
    → base + len ≤ 0xFF
    → lacks user_perm_io utsk ≡ false
    → ((q : ℕ) → in_ports base len q ≡ true → port_blocked k.iobm q ≡ true)
    → Reblocked base len utsk k
reqio-blkio base len utsk k le io blocked =
    let a =
      allowed_call false base len utsk k (syscall_reqio base len utsk k) le io
        (port_calls base len utsk k).0 in
    let k1 = record k { iobm = a.iobm } in
    let b =
      allowed_call true base len utsk k1 (syscall_blkio base len utsk k1) le io
        (port_calls base len utsk k1).1 in
    record {
      opened = a.iobm;
      closed = b.iobm;
      opens = a.done;
      closes = b.done;
      ports = λ q. elim (Bool-cases (in_ports base len q)) [
        | inl y ↦ b.ports q ∙ rw y (sym (blocked q y))
        | inr n ↦ b.ports q ∙ rw n (a.ports q ∙ rw n refl)
      ];
    }
