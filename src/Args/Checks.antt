-- ===== src/Args/Checks.antt =====
-- The checks of syscall.c: what an argument that is accepted lies in.
use ele.Common.{
  ℕ, zero, suc, ◌+◌, ◌-◌, ◌%◌, ◌^◌, ◌<◌, ◌≤◌, ◌≡◌, ◌≢◌, ◌∙◌, inl, inr, refl, ap, sym, subst, arith,
  ◌==◌, ltb, leb, ◌||◌, Bool, true, false, Bool-cases, if◌then◌else◌, Option, none, some,
}
use ele.Args.{Caller, word_of, fetchint, find_nul, fetchstr, arg_addr, argint, argstr}

-- The outcomes of the loop: the string's end, or no end in the memory that is left.
pub data Ended (n k s : ℕ) (c : Caller) : Option ℕ → Type 0 where
  at_nul :
      (len : ℕ)
      → len < n
      → c.bytes (s + len) ≡ 0
      → ((j : ℕ) → j < len → c.bytes (s + j) ≢ 0)
      → Ended n k s c (some (k + len))
  no_nul : ((j : ℕ) → j < n → c.bytes (s + j) ≢ 0) → Ended n k s c none

no_offset : (s : ℕ) → s + 0 ≡ s
no_offset s = omega arith

one_on : (s j : ℕ) → s + 1 + j ≡ s + suc j
one_on s j = omega arith

-- A byte that does not end the string, and those behind it.
text_from :
    (c : Caller) (s n : ℕ)
    → c.bytes s ≢ 0
    → ((j : ℕ) → j < n → c.bytes (s + 1 + j) ≢ 0)
    → (j : ℕ) → j < suc n
    → c.bytes (s + j) ≢ 0
text_from c s n nz h zero l z = nz (ap c.bytes (sym (no_offset s)) ∙ z)
text_from c s n nz h (suc j) l z = h j (omega (arith, l)) (ap c.bytes (one_on s j) ∙ z)

Ended-next :
    (n k s : ℕ) (c : Caller) (o : Option ℕ)
    → c.bytes s ≢ 0
    → Ended n (k + 1) (s + 1) c o
    → Ended (suc n) k s c o
Ended-next n k s c o nz (at_nul len l z text) =
    subst (λ v. Ended (suc n) k s c (some v)) (sym (one_on k len))
      (at_nul (suc len) (omega (arith, l)) (ap c.bytes (sym (one_on s len)) ∙ z)
        (text_from c s len nz text))
Ended-next n k s c o nz (no_nul h) = no_nul (text_from c s n nz h)

pub find_nul-Ended : (n k s : ℕ) (c : Caller) → Ended n k s c (find_nul n k s c)
unfolding find_nul
find_nul-Ended zero k s c = no_nul (λ j l. absurd (omega (arith, l)))
find_nul-Ended (suc n) k s c =
    let branch : Bool → Type 0 =
      λ b. Ended (suc n) k s c (if b then some k else find_nul n (k + 1) (s + 1) c) in
    elim (Bool-cases (c.bytes s == 0)) [
      | inl z ↦ subst branch (sym z) (
          subst (λ v. Ended (suc n) k s c (some v)) (no_offset k)
            (at_nul 0 (omega arith) (ap c.bytes (no_offset s) ∙ ground (arith, z))
              (λ j l. absurd (omega (arith, l)))))
      | inr nz ↦
          subst branch (sym nz)
            (Ended-next n k s c _ (ground (arith, nz)) (find_nul-Ended n (k + 1) (s + 1) c))
    ]

-- The outcomes of `argstr`: a string that ends in the memory of the process, or -1, as the argument is not in the
-- memory or no byte from the pointer to the end of the memory is zero.
pub data Checked (n : ℕ) (c : Caller) : Option (ℕ × ℕ) → Type 0 where
  is_string :
      (addr len : ℕ)
      → arg_addr n c + 4 ≤ c.sz
      → addr ≡ word_of (arg_addr n c) c
      → addr + len < c.sz
      → c.bytes (addr + len) ≡ 0
      → ((j : ℕ) → j < len → c.bytes (addr + j) ≢ 0)
      → Checked n c (some (addr, len))
  no_argument : c.sz < arg_addr n c + 4 → Checked n c none
  no_string :
      ((j : ℕ) → word_of (arg_addr n c) c + j < c.sz → c.bytes (word_of (arg_addr n c) c + j) ≢ 0)
      → Checked n c none

abbrev with_length : ℕ → Option ℕ → Option (ℕ × ℕ)
with_length addr o = elim o [ none ↦ none | some len ↦ some (addr, len) ]

abbrev checked : Caller → Option ℕ → Option (ℕ × ℕ)
checked c o = elim o [ none ↦ none | some addr ↦ with_length addr (fetchstr addr c) ]

module _ (n : ℕ) (c : Caller) where
  inside_words :
      c.sz ≤ 2 ^ 31
      → (leb c.sz (arg_addr n c) || ltb c.sz ((arg_addr n c + 4) % 2 ^ 32)) ≡ false
      → arg_addr n c + 4 ≤ c.sz
  inside_words small = go (arg_addr n c) c.sz small
    where
      go : (a sz : ℕ) → sz ≤ 2 ^ 31 → (leb sz a || ltb sz ((a + 4) % 2 ^ 32)) ≡ false → a + 4 ≤ sz
      go a sz small e = ground (arith, small, e)

  outside_words :
      (leb c.sz (arg_addr n c) || ltb c.sz ((arg_addr n c + 4) % 2 ^ 32)) ≡ true
      → c.sz < arg_addr n c + 4
  outside_words = go (arg_addr n c) c.sz
    where
      go : (a sz : ℕ) → (leb sz a || ltb sz ((a + 4) % 2 ^ 32)) ≡ true → sz < a + 4
      go a sz e = ground (arith, e)

  string-Checked :
      (addr : ℕ)
      → arg_addr n c + 4 ≤ c.sz
      → addr ≡ word_of (arg_addr n c) c
      → Checked n c (checked c (some addr))
  unfolding fetchstr
  string-Checked addr fits is_word =
      let branch : Bool → Type 0 =
        λ b. Checked n c (with_length addr (if b then none else find_nul (c.sz - addr) 0 addr c)) in
      elim (Bool-cases (leb c.sz addr)) [
        | inl out ↦
            let past : c.sz ≤ addr = ground (arith, out) in
            subst branch (sym out) (no_string (λ j u. absurd (omega (arith, past, u, is_word))))
        | inr inside ↦
            subst branch (sym inside)
              (go (find_nul (c.sz - addr) 0 addr c) (find_nul-Ended (c.sz - addr) 0 addr c))
      ]
    where
      go : (o : Option ℕ) → Ended (c.sz - addr) 0 addr c o → Checked n c (with_length addr o)
      go o (at_nul len l z text) =
          subst (λ k. Checked n c (some (addr, k))) (start len)
            (is_string addr len fits is_word (omega (arith, l)) z text)
        where
          start : (len : ℕ) → len ≡ 0 + len
          start len = omega arith
      go o (no_nul h) =
          no_string
            (λ j u. subst (λ a. c.bytes (a + j) ≢ 0) is_word (h j (omega (arith, u, is_word))))

  -- In a process with at most 2^31 bytes: `argstr` gives a pointer and a length only if the argument is a word of
  -- its memory, the string behind the pointer ends inside the memory, and the length is that of the
  -- string. It returns -1 only if the argument is not in the memory, or no byte from the pointer to the
  -- end of the memory ends a string.
  pub argstr-Checked : c.sz ≤ 2 ^ 31 → Checked n c (argstr n c)
  unfolding argstr argint fetchint
  argstr-Checked small =
      let test = leb c.sz (arg_addr n c) || ltb c.sz ((arg_addr n c + 4) % 2 ^ 32) in
      let branch : Bool → Type 0 =
        λ b. Checked n c (checked c (if b then none else some (word_of (arg_addr n c) c))) in
      elim (Bool-cases test) [
        | inl out ↦ subst branch (sym out) (no_argument (outside_words out))
        | inr inside ↦
            subst branch (sym inside)
              (string-Checked (word_of (arg_addr n c) c) (inside_words small inside) refl)
      ]
