-- ===== src/Arguments/Texts.antt =====
-- Where lib/libc/sys/argconst.c puts the arguments, and where its stack ends.
use mathlib.Core.List.{append-nil, append_assoc}
use modit_micro.Base.{
  ==-self, ==-false, ℕ, suc, ◌+◌, ◌-◌, ◌*◌, ◌/◌, ◌%◌, ◌^◌, ◌≤◌, ◌<◌, ◌≡◌, ◌⊎◌, false, inl, inr,
  refl, sym, subst, ap, ◌∙◌, arith, List, [], ◌∷◌, ◌++◌, ◌==◌, length, length-append,
}
use modit_micro.Arguments.{
  down, write, write_bytes, write_words, stack_size, Stack, push_text, push_texts, construct_ustk,
}

-- The bytes of the texts with their NULs.
abbrev pub total : List (List ℕ) → ℕ
total [] = 0
total (cs ∷ css) = length cs + 1 + total css

-- The bytes `cs` and a NUL stand at `p`.
abbrev pub TextAt : (ℕ → ℕ) → ℕ → List ℕ → Type 0
TextAt m p [] = m p ≡ 0
TextAt m p (c ∷ cs) = (m p ≡ c) × TextAt m (p + 1) cs

-- The texts stand one below the other, down from `top`.
abbrev pub TextsAt : (ℕ → ℕ) → ℕ → List (List ℕ) → Type 0
TextsAt m top [] = Unit {0}
TextsAt m top (cs ∷ css) =
    TextAt m (top - (length cs + 1)) cs × TextsAt m (top - (length cs + 1)) css

-- The addresses that they get down from `top`.
abbrev pub pointers : ℕ → List (List ℕ) → List ℕ
pointers top [] = []
pointers top (cs ∷ css) = (top - (length cs + 1)) ∷ pointers (top - (length cs + 1)) css

down_small : (p n : ℕ) → n ≤ p → p < 2 ^ 32 → down p n ≡ p - n
down_small p n le lt = omega arith

other_byte : (p a n : ℕ) → (a < p) ⊎ (p + suc n ≤ a) → (p == a) ≡ false
other_byte p a n o = ground (arith, o)

write_bytes_outside :
    (p : ℕ) (cs : List ℕ) (m : ℕ → ℕ) (a : ℕ)
    → (a < p) ⊎ (p + length cs ≤ a)
    → write_bytes p cs m a ≡ m a
unfolding write_bytes
write_bytes_outside p [] m a o = refl
write_bytes_outside p (c ∷ cs) m a o =
    write_bytes_outside (p + 1) cs (write p c m) a (ground (arith, o))
    ∙ rw (other_byte p a (length cs) o) refl

write_words_outside :
    (p : ℕ) (ws : List ℕ) (m : ℕ → ℕ) (a : ℕ)
    → (a < p) ⊎ (p + 4 * length ws ≤ a)
    → write_words p ws m a ≡ m a
unfolding write_words
write_words_outside p [] m a o = refl
write_words_outside p (w ∷ ws) m a o =
    write_words_outside (p + 4) ws _ a (ground (arith, o))
    ∙ write_bytes_outside p (w % 256 ∷ w / 2 ^ 8 % 256 ∷ w / 2 ^ 16 % 256 ∷ w / 2 ^ 24 % 256 ∷ []) m
        a (ground (arith, o))

-- The words stand at `p`, little endian.
abbrev pub WordsAt : (ℕ → ℕ) → ℕ → List ℕ → Type 0
WordsAt m p [] = Unit {0}
WordsAt m p (w ∷ ws) =
    (m p ≡ w % 256)
    × (m (p + 1) ≡ w / 2 ^ 8 % 256)
    × (m (p + 2) ≡ w / 2 ^ 16 % 256)
    × (m (p + 3) ≡ w / 2 ^ 24 % 256)
    × WordsAt m (p + 4) ws

four_bytes :
    (p a b c d : ℕ) (m : ℕ → ℕ)
    → (write_bytes p (a ∷ b ∷ c ∷ d ∷ []) m p ≡ a)
      × (write_bytes p (a ∷ b ∷ c ∷ d ∷ []) m (p + 1) ≡ b)
      × (write_bytes p (a ∷ b ∷ c ∷ d ∷ []) m (p + 2) ≡ c)
      × (write_bytes p (a ∷ b ∷ c ∷ d ∷ []) m (p + 3) ≡ d)
unfolding write_bytes
four_bytes p a b c d m = (ground arith, ground arith, ground arith, ground arith)

write_words-WordsAt : (p : ℕ) (ws : List ℕ) (m : ℕ → ℕ) → WordsAt (write_words p ws m) p ws
unfolding write_words
write_words-WordsAt p [] m = tt
write_words-WordsAt p (w ∷ ws) m =
    let a = w % 256 in
    let b = w / 2 ^ 8 % 256 in
    let c = w / 2 ^ 16 % 256 in
    let d = w / 2 ^ 24 % 256 in
    let m1 = write_bytes p (a ∷ b ∷ c ∷ d ∷ []) m in
    let four = four_bytes p a b c d m in
    (
      write_words_outside (p + 4) ws m1 p (inl (omega arith)) ∙ four.0,
      write_words_outside (p + 4) ws m1 (p + 1) (inl (omega arith)) ∙ four.1,
      write_words_outside (p + 4) ws m1 (p + 2) (inl (omega arith)) ∙ four.2,
      write_words_outside (p + 4) ws m1 (p + 3) (inl (omega arith)) ∙ four.3,
      write_words-WordsAt (p + 4) ws m1,
    )

WordsAt-frame :
    (m m' : ℕ → ℕ) (p : ℕ) (ws : List ℕ)
    → ((a : ℕ) → p ≤ a → m' a ≡ m a)
    → WordsAt m p ws
    → WordsAt m' p ws
WordsAt-frame m m' p [] same t = tt
WordsAt-frame m m' p (w ∷ ws) same t = (
  same p (omega arith) ∙ t.0,
  same (p + 1) (omega arith) ∙ t.1,
  same (p + 2) (omega arith) ∙ t.2,
  same (p + 3) (omega arith) ∙ t.3,
  WordsAt-frame m m' (p + 4) ws (λ a lo. same a (omega arith)) t.4,
)

-- One word, and the others behind it.
word_first :
    (p q w : ℕ) (ws : List ℕ) (m : ℕ → ℕ)
    → q ≡ p + 4
    → WordsAt (write_words p (w ∷ []) (write_words q ws m)) p (w ∷ ws)
word_first p q w ws m e =
    let m1 = write_words q ws m in
    let t = write_words-WordsAt p (w ∷ []) m1 in
    (
      t.0,
      t.1,
      t.2,
      t.3,
      WordsAt-frame m1 (write_words p (w ∷ []) m1) (p + 4) ws
          (λ a lo. write_words_outside p (w ∷ []) m1 a (inr (omega (arith, lo))))
          (subst (λ x. WordsAt m1 x ws) e (write_words-WordsAt q ws m)),
    )

-- The text just written.
written :
    (p : ℕ) (cs : List ℕ) (m : ℕ → ℕ) → TextAt (write (p + length cs) 0 (write_bytes p cs m)) p cs
unfolding write_bytes
written p [] m = let here : p + 0 ≡ p = omega arith in rw (here, ==-self p) refl
written p (c ∷ cs) m =
    let end : p + suc (length cs) ≡ p + 1 + length cs = omega arith in
    let far : (p + 1 + length cs == p) ≡ false = ground arith in
    (
      rw (end, far)
          (write_bytes_outside (p + 1) cs (write p c m) p (inl (omega arith))
            ∙ rw (==-self p) refl),
      subst (λ q. TextAt (write q 0 (write_bytes (p + 1) cs (write p c m))) (p + 1) cs) (sym end)
          (written (p + 1) cs (write p c m)),
    )

TextAt-frame :
    (m m' : ℕ → ℕ) (p : ℕ) (cs : List ℕ)
    → ((a : ℕ) → p ≤ a → a < p + length cs + 1 → m' a ≡ m a)
    → TextAt m p cs
    → TextAt m' p cs
TextAt-frame m m' p [] same t = same p (omega arith) (omega arith) ∙ t
TextAt-frame m m' p (c ∷ cs) same t = (
  same p (omega arith) (omega arith) ∙ t.0,
  TextAt-frame m m' (p + 1) cs (λ a lo hi. same a (omega arith) (omega arith)) t.1,
)

TextsAt-frame :
    (m m' : ℕ → ℕ) (top : ℕ) (css : List (List ℕ))
    → total css ≤ top
    → ((a : ℕ) → top - total css ≤ a → m' a ≡ m a)
    → TextsAt m top css
    → TextsAt m' top css
TextsAt-frame m m' top [] le same t = tt
TextsAt-frame m m' top (cs ∷ css) le same t = (
  TextAt-frame m m' (top - (length cs + 1)) cs (λ a lo hi. same a (omega arith)) t.0,
  TextsAt-frame m m' (top - (length cs + 1)) css (omega arith) (λ a lo. same a (omega arith)) t.1,
)

-- What the second loop leaves above the pointer that it starts with.
push_texts_above :
    (css : List (List ℕ)) (s : Stack) (a : ℕ)
    → total css ≤ s.ustkptr
    → s.ustkptr < 2 ^ 32
    → s.ustkptr ≤ a
    → (push_texts css s).mem a ≡ s.mem a
unfolding push_texts push_text
push_texts_above [] s a le lt above = refl
push_texts_above (cs ∷ css) s a le lt above =
    let here = down_small s.ustkptr (length cs + 1) (omega arith) lt in
    let end : (down s.ustkptr (length cs + 1) + length cs == a) ≡ false =
      ==-false (λ e. absurd (omega (arith, here, e))) in
    push_texts_above css (push_text cs s) a (omega (arith, here)) (omega (arith, here))
      (omega (arith, here))
    ∙ rw end (
        write_bytes_outside (down s.ustkptr (length cs + 1)) cs s.mem a (inr (omega (arith, here))))

push_texts_ustkptr :
    (css : List (List ℕ)) (s : Stack)
    → total css ≤ s.ustkptr
    → s.ustkptr < 2 ^ 32
    → (push_texts css s).ustkptr ≡ s.ustkptr - total css
unfolding push_texts push_text
push_texts_ustkptr [] s le lt = omega arith
push_texts_ustkptr (cs ∷ css) s le lt =
    let here = down_small s.ustkptr (length cs + 1) (omega arith) lt in
    push_texts_ustkptr css (push_text cs s) (omega (arith, here)) (omega (arith, here))
    ∙ omega (arith, here)

push_texts-TextsAt :
    (css : List (List ℕ)) (s : Stack)
    → total css ≤ s.ustkptr
    → s.ustkptr < 2 ^ 32
    → TextsAt (push_texts css s).mem s.ustkptr css
unfolding push_texts push_text
push_texts-TextsAt [] s le lt = tt
push_texts-TextsAt (cs ∷ css) s le lt =
    let here = down_small s.ustkptr (length cs + 1) (omega arith) lt in
    let s1 = push_text cs s in
    let low : s1.ustkptr ≡ s.ustkptr - (length cs + 1) = here in
    (
      TextAt-frame s1.mem (push_texts css s1).mem (s.ustkptr - (length cs + 1)) cs
          (λ a lo hi.
            push_texts_above css s1 a (omega (arith, here)) (omega (arith, here))
              (omega (arith, here, lo)))
          (subst
            (λ p.
              TextAt (write (p + length cs) 0 (write_bytes p cs s.mem))
                (s.ustkptr - (length cs + 1)) cs)
            (sym here) (written (s.ustkptr - (length cs + 1)) cs s.mem)),
      subst (λ p. TextsAt (push_texts css s1).mem p css) low
          (push_texts-TextsAt css s1 (omega (arith, here)) (omega (arith, here))),
    )

push_texts_argv :
    (css : List (List ℕ)) (s : Stack)
    → total css ≤ s.ptr_real
    → s.ptr_real < 2 ^ 32
    → (push_texts css s).argv ≡ s.argv ++ pointers s.ptr_real css
unfolding push_texts push_text
push_texts_argv [] s le lt = sym (append-nil s.argv)
push_texts_argv (cs ∷ css) s le lt =
    let here = down_small s.ptr_real (length cs + 1) (omega arith) lt in
    push_texts_argv css (push_text cs s) (omega (arith, here)) (omega (arith, here))
    ∙ rw here (
        append_assoc s.argv ((s.ptr_real - (length cs + 1)) ∷ [])
          (pointers (s.ptr_real - (length cs + 1)) css))

size_total :
    (css : List (List ℕ))
    → total css + 4 * length css + 8 < 2 ^ 32
    → stack_size css + length css ≡ total css + 4 * length css + 8
unfolding stack_size
size_total [] lt = omega arith
size_total (cs ∷ css) lt = omega (arith, size_total css (omega arith))

length-pointers : (top : ℕ) (css : List (List ℕ)) → length (pointers top css) ≡ length css
length-pointers top [] = refl
length-pointers top (cs ∷ css) = ap suc (length-pointers (top - (length cs + 1)) css)

-- The stack that `__construct_ustk` makes.
pub record Constructed (ustk : ℕ) (css : List (List ℕ)) (s : Stack) : Type 0 where
  pub texts : TextsAt s.mem (ustk + stack_size css) css
  pub argv : s.argv ≡ pointers 0xD0000000 css
  pub words : WordsAt s.mem s.ustkptr (length css ∷ (pointers 0xD0000000 css ++ 0 ∷ []))
  pub ends : s.ustkptr + length css ≡ ustk

-- For a buffer that lies above as many bytes as there are arguments and ends below 2^32, and arguments
-- of at most 0xD0000000 bytes that with their pointers take less than 2^32, the texts stand in the
-- buffer each as far below its end as the argument's pointer is below 0xD0000000; below them stand the
-- number of arguments, their pointers and a NULL, and these words begin as many bytes below the start
-- of the buffer as there are arguments.
pub construct_ustk-Constructed :
    (ustk : ℕ) (css : List (List ℕ)) (m : ℕ → ℕ)
    → length css ≤ ustk
    → total css ≤ 0xD0000000
    → total css + 4 * length css + 8 < 2 ^ 32
    → ustk + stack_size css < 2 ^ 32
    → Constructed ustk css (construct_ustk ustk css m)
unfolding construct_ustk
construct_ustk-Constructed ustk css m above fits size room =
    let z = size_total css size in
    let start : Stack = record {
      ustkptr = (ustk + stack_size css) % 2 ^ 32;
      ptr_real = 0xD0000000;
      mem = m;
      argv = [];
    } in
    let top : (ustk + stack_size css) % 2 ^ 32 ≡ ustk + stack_size css = omega arith in
    let s = push_texts css start in
    let low : s.ustkptr ≡ ustk + stack_size css - total css =
      push_texts_ustkptr css start (omega (arith, z, top)) (omega (arith, top))
      ∙ ap (λ t. t - total css) top in
    let table : down s.ustkptr (4 * (length css + 1)) ≡ ustk + 4 - length css =
      down_small s.ustkptr (4 * (length css + 1)) (omega (arith, low, z)) (omega (arith, low, z))
      ∙ omega (arith, low, z) in
    let bottom : down (down s.ustkptr (4 * (length css + 1))) 4 ≡ ustk - length css =
      ap (λ t. down t 4) table
      ∙ down_small (ustk + 4 - length css) 4 (omega arith) (omega (arith, z))
      ∙ omega arith in
    let argv : s.argv ≡ pointers 0xD0000000 css =
      push_texts_argv css start (omega arith) (omega arith) in
    let words : length (s.argv ++ 0 ∷ []) ≡ length css + 1 =
      length-append s.argv (0 ∷ [])
      ∙ omega (arith, ap (λ (l : List ℕ). length l) argv, length-pointers 0xD0000000 css) in
    record {
      texts =
          TextsAt-frame s.mem _ (ustk + stack_size css) css (omega (arith, z))
            (λ a lo.
              write_words_outside (down (down s.ustkptr (4 * (length css + 1))) 4) (length css ∷ [])
                _ a (inr (omega (arith, bottom, lo, z)))
              ∙ write_words_outside (down s.ustkptr (4 * (length css + 1))) (s.argv ++ 0 ∷ []) s.mem
                  a (inr (omega (arith, table, words, lo, z))))
            (subst (λ t. TextsAt s.mem t css) top
              (push_texts-TextsAt css start (omega (arith, z, top)) (omega (arith, top))));
      argv = argv;
      words =
          subst
            (λ l.
              WordsAt
                (write_words (down (down s.ustkptr (4 * (length css + 1))) 4) (length css ∷ [])
                  (write_words (down s.ustkptr (4 * (length css + 1))) (s.argv ++ 0 ∷ []) s.mem))
                (down (down s.ustkptr (4 * (length css + 1))) 4) (length css ∷ (l ++ 0 ∷ [])))
            argv
            (word_first (down (down s.ustkptr (4 * (length css + 1))) 4)
              (down s.ustkptr (4 * (length css + 1))) (length css) (s.argv ++ 0 ∷ []) s.mem
              (omega (arith, table, bottom, above)));
      ends = omega (arith, bottom);
    }
