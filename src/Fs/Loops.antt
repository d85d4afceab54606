-- ===== src/Fs/Loops.antt =====
-- The loops of `writei` and `readi` in fs.c, to their end.
use ele.Common.{
  ℕ, zero, suc, ◌+◌, ◌/◌, ◌%◌, ◌^◌, ◌-◌, ◌<◌, ◌≤◌, ◌≡◌, ◌≢◌, refl, sym, subst, ap, ◌∙◌, arith,
  ℕ_discrete, ltb, true, false, Option, none, some,
}
use ele.Fs.{Disk, Superblock, Inode}
use ele.Fs.Map.{in_use}
use ele.Fs.Content.{Memory, chunk, copy_in, bmap, write_loop}
use ele.Fs.Chunk.{chunk_less, chunk_within, chunk_fits, chunk_rest}
use ele.Fs.Slots.{slot, IsFile, IsReserved}
use ele.Fs.Mapped.{Bmapped, mapped, no_block}
use ele.Fs.Bmap.{bmap-Bmapped}
use ele.Fs.Write.{IsWritten, step-IsWritten, IsWritten-append}

module _ (n : ℕ) (sb : Superblock) (src off rest : ℕ) (mem : Memory) (ip : Inode) (d : Disk) where
  pub write_end : rest ≡ 0 → write_loop (suc n) sb src off rest mem ip d ≡ some (ip, d)
  unfolding write_loop
  write_end z = rw (write_loop, stop rest z)
    where
      stop : (rest : ℕ) → rest ≡ 0 → ltb 0 rest ≡ false
      stop rest z = ground arith

  write_panic :
      0 < rest
      → bmap sb (off / 512) ip d ≡ none
      → write_loop (suc n) sb src off rest mem ip d ≡ none
  unfolding write_loop
  write_panic l e = rw (write_loop, go rest l, e)
    where
      go : (rest : ℕ) → 0 < rest → ltb 0 rest ≡ true
      go rest l = ground arith

  write_next :
      (x : ℕ) (jp : Inode) (e : Disk)
      → 0 < rest
      → bmap sb (off / 512) ip d ≡ some (x, jp, e)
      → write_loop (suc n) sb src off rest mem ip d
        ≡ write_loop n sb
            (src + chunk rest off)
            (off + chunk rest off)
            (rest - chunk rest off)
            mem
            jp
            (copy_in x (off % 512) src (chunk rest off) mem e)
  unfolding write_loop
  write_next x jp e l f = rw (write_loop, go rest l, f)
    where
      go : (rest : ℕ) → 0 < rest → ltb 0 rest ≡ true
      go rest l = ground arith

-- The first chunk, by its length.
write_chunk :
    (n : ℕ) (sb : Superblock) (src off rest : ℕ) (mem : Memory) (ip : Inode) (d : Disk) (x : ℕ)
    (jp : Inode) (e : Disk) (m k : ℕ)
    → 0 < rest
    → chunk rest off ≡ m
    → rest - m ≡ k
    → bmap sb (off / 512) ip d ≡ some (x, jp, e)
    → write_loop (suc n) sb src off rest mem ip d
      ≡ write_loop n sb (src + m) (off + m) k mem jp (copy_in x (off % 512) src m mem e)
write_chunk n sb src off rest mem ip d x jp e m k l same left f =
    write_next n sb src off rest mem ip d x jp e l f
    ∙ ap
        (λ c.
          write_loop n sb (src + c) (off + c) (rest - c) mem jp (copy_in x (off % 512) src c mem e))
        same
    ∙ ap (λ r. write_loop n sb (src + m) (off + m) r mem jp (copy_in x (off % 512) src m mem e))
        left

-- Every block of the disk `g` is in use; but one, `a`, may be free if the file `jp` has no indirect block.
abbrev pub IsFilled : Superblock → Inode → Disk → ℕ → Type 0
IsFilled sb jp g a = (x : ℕ) → x < sb.size → (slot jp g 140 ≡ 0 → a ≢ x) → in_use sb x g ≢ 0

-- The outcomes of the loop, with fuel `n`: the bytes are written; or the loop gets over the first `m` bytes, to
-- the file `jp` on the disk `g`, where the next byte has no block and there is not enough free to get it.
pub data Wrote (n : ℕ) (sb : Superblock) (src off rest : ℕ) (mem : Memory) (ip : Inode) (d : Disk)
    : Option (Inode × Disk) → Type 0 where
  wrote :
      (jp : Inode) (e : Disk)
      → IsWritten sb src off rest mem ip d jp e
      → Wrote n sb src off rest mem ip d (some (jp, e))
  stuck :
      (m a : ℕ) (jp : Inode) (g : Disk)
      → m < rest
      → write_loop n sb src off m mem ip d ≡ some (jp, g)
      → IsWritten sb src off m mem ip d jp g
      → slot jp g ((off + m) / 512) ≡ 0
      → IsFilled sb jp g a
      → Wrote n sb src off rest mem ip d none

nothing-IsWritten :
    (sb : Superblock) (src off : ℕ) (mem : Memory) (ip : Inode) (d : Disk)
    → IsFile sb ip d
    → IsReserved sb d
    → IsWritten sb src off 0 mem ip d ip d
nothing-IsWritten sb src off mem ip d f r = record {
  file = f;
  reserved = r;
  has = λ q u. absurd (omega (arith, u));
  bytes = λ q u. absurd (omega (arith, u));
  keeps = λ k u h. h;
  outside = λ k u out h. refl;
  used = λ b u h. h;
  same_size = refl;
  same_kind = refl;
  same_inum = refl;
}

-- The steps behind the first chunk, of `m` bytes.
Wrote-next :
    {n : ℕ} {sb : Superblock} {src off m rest : ℕ} {mem : Memory} {ip jp : Inode} {d e : Disk}
    {o : Option (Inode × Disk)}
    → off + (m + rest) ≤ 71680
    → ((k : ℕ)
        → k < rest
        → write_loop (suc n) sb src off (m + k) mem ip d
          ≡ write_loop n sb (src + m) (off + m) k mem jp e)
    → IsWritten sb src off m mem ip d jp e
    → Wrote n sb (src + m) (off + m) rest mem jp e o
    → Wrote (suc n) sb src off (m + rest) mem ip d o
Wrote-next bound step x (wrote kp g y) = wrote kp g (IsWritten-append bound x y)
Wrote-next {off} {m} bound step x (stuck k a kp g l run y z full) =
    stuck (m + k) a kp g (omega (arith, l)) (step k l ∙ run)
      (IsWritten-append (omega (arith, bound, l)) x y)
      (subst (λ p. slot kp g (p / 512) ≡ 0) (over off m k) z) full
  where
    over : (off m k : ℕ) → off + m + k ≡ off + (m + k)
    over off m k = omega arith

pub write_loop-Wrote :
    (n : ℕ) (sb : Superblock) (src off rest : ℕ) (mem : Memory) (ip : Inode) (d : Disk)
    → rest ≤ n
    → off + rest ≤ 71680
    → sb.size < 2 ^ 32
    → IsFile sb ip d
    → IsReserved sb d
    → Wrote n sb src off rest mem ip d (write_loop n sb src off rest mem ip d)
unfolding write_loop
write_loop-Wrote zero sb src off rest mem ip d h bound small f r =
    subst (λ k. Wrote zero sb src off k mem ip d (some (ip, d))) (none_left rest h)
      (wrote ip d (nothing-IsWritten sb src off mem ip d f r))
  where
    none_left : (k : ℕ) → k ≤ 0 → 0 ≡ k
    none_left k h = omega (arith, h)
write_loop-Wrote (suc n) sb src off rest mem ip d h bound small f r = elim (ℕ_discrete rest 0) [
  | yes z ↦
      subst (Wrote (suc n) sb src off rest mem ip d) (sym (write_end n sb src off rest mem ip d z))
        (subst (λ k. Wrote (suc n) sb src off k mem ip d (some (ip, d))) (sym z)
          (wrote ip d (nothing-IsWritten sb src off mem ip d f r)))
  | no nz ↦
      go (omega (arith, nz)) (omega (arith, bound, nz)) (bmap sb (off / 512) ip d) refl
        (bmap-Bmapped f r (off / 512) (omega (arith, bound, nz)) small)
        (λ jp e.
          write_loop-Wrote n sb (src + chunk rest off) (off + chunk rest off)
            (rest - chunk rest off) mem jp e (chunk_less rest off n (omega (arith, nz)) h)
            (chunk_within rest off bound) small)
]
  where
    start : (off : ℕ) → off ≡ off + 0
    start off = omega arith

    some_left : (rest off k : ℕ) → k < rest - chunk rest off → 0 < chunk rest off + k
    some_left rest off k u = omega (arith, u)

    same_chunk :
        (rest off k : ℕ)
        → k < rest - chunk rest off
        → chunk (chunk rest off + k) off ≡ chunk rest off
    same_chunk rest off k u = omega (arith, u)

    left_over : (m k : ℕ) → m + k - m ≡ k
    left_over m k = omega arith

    go :
        0 < rest
        → off / 512 < 140
        → (o : Option (ℕ × Inode × Disk)) → bmap sb (off / 512) ip d ≡ o
        → Bmapped sb (off / 512) ip d o
        → ((jp : Inode) (e : Disk)
            → IsFile sb jp e
            → IsReserved sb e
            → Wrote n sb
                (src + chunk rest off)
                (off + chunk rest off)
                (rest - chunk rest off)
                mem
                jp
                e
                (write_loop n sb
                  (src + chunk rest off)
                  (off + chunk rest off)
                  (rest - chunk rest off)
                  mem
                  jp
                  e))
        → Wrote (suc n) sb src off rest mem ip d (write_loop (suc n) sb src off rest mem ip d)
    go l i o e (no_block a z full) later =
        subst (Wrote (suc n) sb src off rest mem ip d)
          (sym (write_panic n sb src off rest mem ip d l e))
          (stuck 0 a ip d l (write_end n sb src off 0 mem ip d refl)
            (nothing-IsWritten sb src off mem ip d f r)
            (subst (λ k. slot ip d (k / 512) ≡ 0) (start off) z) full)
    go l i o eq (mapped a jp e x) later =
        let m = chunk rest off in
        let w = step-IsWritten off src m i (chunk_fits rest off) x mem in
        subst (Wrote (suc n) sb src off rest mem ip d)
          (sym (write_next n sb src off rest mem ip d a jp e l eq))
          (subst
            (λ b. Wrote (suc n) sb src off rest mem ip d (
              write_loop n sb (src + m) (off + m) (rest - m) mem jp
                (copy_in b (off % 512) src m mem e)))
            x.here
            (subst
              (λ k. Wrote (suc n) sb src off k mem ip d (
                write_loop n sb (src + m) (off + m) (rest - m) mem jp
                  (copy_in (slot jp e (off / 512)) (off % 512) src m mem e)))
              (chunk_rest rest off)
              (Wrote-next (subst (λ k. off + k ≤ 71680) (sym (chunk_rest rest off)) bound)
                (λ k u.
                  subst
                    (λ b.
                      write_loop (suc n) sb src off (m + k) mem ip d
                      ≡ write_loop n sb (src + m) (off + m) k mem jp
                          (copy_in b (off % 512) src m mem e))
                    (sym x.here)
                    (write_chunk n sb src off (m + k) mem ip d a jp e m k (some_left rest off k u)
                      (same_chunk rest off k u) (left_over m k) eq))
                w
                (later jp (copy_in (slot jp e (off / 512)) (off % 512) src m mem e) w.file
                  w.reserved))))
