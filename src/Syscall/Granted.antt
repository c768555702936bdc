-- ===== src/Syscall/Granted.antt =====
-- What a system call of module/syscall/main.c changes without a permission, and the calls that send no
-- message.
use modit_micro.Base.{
  SomeHas, Bool-cases, ℕ, zero, suc, ◌+◌, ◌*◌, ◌/◌, ◌%◌, ◌^◌, ◌++◌, subst, false, ◌≡◌, refl, ◌⊎◌,
  inl, inr, List, [], ◌∷◌, leb, ltb, ◌==◌,
}
use modit_micro.Heap.{kfree}
use modit_micro.Heap.Aligned.{kalloc_a}
use modit_micro.User.Badges.{badges}
use modit_micro.User.{UserTask}
use modit_micro.Kernel.{Message, VirtualAllocator, Surroundings, Kernel, Outcome, returns}
use modit_micro.Syscall.{
  lacks, user_perm_io, user_perm_ird, user_perm_mem, string_at, syscall_print, change_ports,
  map_heap, settle, page_loop, share_page, take_page_away, write_message, remap, syscall_msg_req,
  syscall_msg_free, guarded,
}
use modit_micro.Syscall.Outcomes.{Keeps, some-Keeps}

-- `t'` comes from `t` by mapping the pages behind `kdat` of messages at their `dat`, by taking pages at `dat`
-- of messages away, and by the pages that the kernel heap asked for, which user programs cannot reach.
pub data Touched {T : Type 0} (va : VirtualAllocator T) (t : T) : T → Type 0 where
  untouched : Touched va t t
  shared :
      (m : Message) (flags i : ℕ) (t' : T)
      → (flags ≡ 7) ⊎ (flags ≡ 5)
      → Touched va t t'
      → Touched va t
          (va.remappg (va.getphys ((m.kdat + i) % 2 ^ 32) t') ((i + m.dat) % 2 ^ 32) flags t')
  taken_away :
      (m : Message) (i : ℕ) (t' : T)
      → Touched va t t'
      → Touched va t (va.remappg 0 ((i + m.dat) % 2 ^ 32) 0 t')
  heap_pages : (addr n : ℕ) (t' : T) → Touched va t t' → Touched va t (va.allocpgs addr n 3 t').1

-- The ids and permissions of all tasks are as before, or there is one more task, with the next id and
-- the permissions of `utsk`.
abbrev pub Enlists : {T : Type 0} → UserTask → Kernel T → Kernel T → Type 0
Enlists utsk k k' =
    (badges k'.users.utsk_list ≡ badges k.users.utsk_list)
    ⊎ (badges k'.users.utsk_list ≡ badges k.users.utsk_list ++ (k.users.next_pid, utsk.perms) ∷ [])

-- What changes without a permission of `utsk`, and which tasks there are.
pub record Granted {T : Type 0} (e : Surroundings T) (utsk : UserTask) (k k' : Kernel T)
    : Type 0 where
  pub tasks : Enlists utsk k k'
  pub ports : (k'.iobm ≡ k.iobm) ⊎ (lacks user_perm_io utsk ≡ false)
  pub tables : Touched e.virtual_allocator k.tables k'.tables ⊎ (lacks user_perm_mem utsk ≡ false)
  pub ramdisk :
      ((k'.memory ≡ k.memory) × (k'.filled ≡ k.filled)) ⊎ (lacks user_perm_ird utsk ≡ false)

page_loop-SomeHas :
    {T : Type 0} (P : T → Type 0) (body : ℕ → T → T)
    → ((i : ℕ) (t : T) → P t → P (body i t))
    → (fuel size i : ℕ) (t : T) → P t
    → SomeHas P (page_loop body fuel size i t)
unfolding page_loop
page_loop-SomeHas P body step zero size i t p = tt
page_loop-SomeHas P body step (suc fuel) size i t p = elim (Bool-cases (ltb i size)) [
  | inl y ↦
      rw y (page_loop-SomeHas P body step fuel size ((i + 0x1000) % 2 ^ 32) (body i t) (step i t p))
  | inr n ↦ rw n p
]

module _ {T : Type 0} (e : Surroundings T) (utsk : UserTask) where
  abbrev pub G : Kernel T → Kernel T → Type 0
  G = Granted e utsk

  -- Nothing that needs a permission changed.
  pub free_of :
      (k k' : Kernel T)
      → Enlists utsk k k'
      → k'.iobm ≡ k.iobm
      → k'.memory ≡ k.memory
      → k'.filled ≡ k.filled
      → Touched e.virtual_allocator k.tables k'.tables
      → Granted e utsk k k'
  free_of k k' new a c d t = record {
    tasks = new;
    ports = inl a;
    tables = inl t;
    ramdisk = inl (c, d);
  }

  pub same : (k : Kernel T) → Granted e utsk k k
  same k = free_of k k (inl refl) refl refl refl untouched

  pub map_heap-Touched :
      (t t' : T) (calls : List (ℕ × ℕ))
      → Touched e.virtual_allocator t t'
      → Touched e.virtual_allocator t (map_heap e.virtual_allocator calls t')
  map_heap-Touched t t' [] u = u
  map_heap-Touched t t' ((addr, n) ∷ calls) u =
      heap_pages addr n (map_heap e.virtual_allocator calls t') (map_heap-Touched t t' calls u)

  pub share-Touched :
      (m : Message) (flags : ℕ)
      → (flags ≡ 7) ⊎ (flags ≡ 5)
      → (i : ℕ) (t t' : T) → Touched e.virtual_allocator t t'
      → Touched e.virtual_allocator t (share_page e.virtual_allocator m flags i t')
  share-Touched m flags f i t t' u = shared m flags i t' f u

  pub take_away-Touched :
      (m : Message) (i : ℕ) (t t' : T)
      → Touched e.virtual_allocator t t'
      → Touched e.virtual_allocator t (take_page_away e.virtual_allocator m i t')
  take_away-Touched m i t t' u = taken_away m i t' u

  -- A loop over pages between two parts of a call.
  pub remap-Granted :
      (k k1 : Kernel T) (body : ℕ → T → T) (size : ℕ) (next : Kernel T → Outcome T ℕ)
      → ((i : ℕ) (t t' : T)
          → Touched e.virtual_allocator t t'
          → Touched e.virtual_allocator t (body i t'))
      → Touched e.virtual_allocator k.tables k1.tables
      → ((t : T)
          → Touched e.virtual_allocator k.tables t
          → Keeps G k (next (record k1 { tables = t })))
      → Keeps G k (remap e body size k1 next)
  unfolding remap
  remap-Granted k k1 body size next step u rest =
      some-Keeps G k (page_loop body e.fuel size 0 k1.tables) (λ t. next (record k1 { tables = t }))
        (λ t eq. rest t (
          subst (SomeHas (Touched e.virtual_allocator k.tables)) eq (
            page_loop-SomeHas (Touched e.virtual_allocator k.tables) body
              (λ i t'. step i k.tables t') e.fuel size 0 k1.tables u)))

  pub print-Granted : (msg : ℕ) (k : Kernel T) → Keeps G k (syscall_print e msg utsk k)
  unfolding syscall_print
  print-Granted msg k =
      some-Keeps G k (string_at e.fuel msg k.memory)
        (λ cs. returns 0 (record k { screen = k.screen ++ cs }))
        (λ cs eq.
          free_of k (record k { screen = k.screen ++ cs }) (inl refl) refl refl refl untouched)

  pub ports-Granted :
      (body : ℕ → (ℕ → ℕ) → ℕ → ℕ) (base len : ℕ) (k : Kernel T)
      → Keeps G k (change_ports body base len utsk k)
  unfolding change_ports
  ports-Granted body base len k = elim (Bool-cases (ltb 0xFF (base + len))) [
    | inl y ↦ rw y (same k)
    | inr n ↦ (elim (Bool-cases (lacks user_perm_io utsk)) [
      | inl y ↦ rw (n, y) (same k)
      | inr m ↦
          rw (n, m)
            (record {
              tasks = inl refl;
              ports = inr m;
              tables = inl untouched;
              ramdisk = inl (refl, refl);
            })
    ])
  ]

  pub guarded-Granted :
      (virt : ℕ) (k : Kernel T) (out : ℕ × T) → Keeps G k (guarded virt utsk k out)
  guarded-Granted virt k out = elim (Bool-cases (lacks user_perm_mem utsk)) [
    | inl y ↦ rw y (same k)
    | inr n ↦ (elim (Bool-cases (leb 0xD8000000 virt)) [
      | inl y ↦ rw (n, y) (same k)
      | inr m ↦
          rw (n, m)
            (record {
              tasks = inl refl;
              ports = inl refl;
              tables = inr n;
              ramdisk = inl (refl, refl);
            })
    ])
  ]

  pub msg_req-Granted :
      (bufsz msgbuf : ℕ) (k : Kernel T) → Keeps G k (syscall_msg_req e bufsz msgbuf utsk k)
  unfolding syscall_msg_req
  msg_req-Granted bufsz msgbuf k = elim (Bool-cases (msgbuf == 0)) [
    | inl y ↦ rw y (same k)
    | inr n ↦ (elim (Bool-cases (ltb 0xFF000 bufsz)) [
      | inl y ↦ rw (n, y) (same k)
      | inr m ↦
          rw (n, m)
            (some-Keeps G k (kalloc_a e.fuel ((bufsz + 0xFFF) / 0x1000 * 0x1000) 0x1000 k.heap) _
              (λ out eq.
                let new = record (k.messages msgbuf) {
                  src = utsk.pid;
                  dat = 0x1000;
                  kdat = out.0;
                } in
                let k1 = write_message msgbuf new (settle e out.1 k) in
                remap-Granted k k1 (share_page e.virtual_allocator new 7)
                  ((bufsz + 0xFFF) / 0x1000 * 0x1000) (returns 0) (share-Touched new 7 (inl refl))
                  (map_heap-Touched k.tables k.tables out.1.mapped untouched)
                  (λ t u. free_of k (record k1 { tables = t }) (inl refl) refl refl refl u)))
    ])
  ]

  pub msg_free-Granted : (msg : ℕ) (k : Kernel T) → Keeps G k (syscall_msg_free e msg utsk k)
  unfolding syscall_msg_free
  msg_free-Granted msg k = elim (Bool-cases (msg == 0)) [
    | inl y ↦ rw y (same k)
    | inr n ↦ (elim (Bool-cases ((k.messages msg).kdat == 0)) [
      | inl y ↦ rw (n, y) (same k)
      | inr m ↦
          rw (n, m)
            (some-Keeps G k (kfree e.fuel (k.messages msg).kdat k.heap)
              (λ h. returns 0 (record k { heap = h }))
              (λ h eq. free_of k (record k { heap = h }) (inl refl) refl refl refl untouched))
    ])
  ]
