-- ===== src/Str/Tests.antt =====
-- string.c on a small memory: the string "ab" at 100.
use ele.Common.{◌==◌, ◌≡◌, refl, if◌then◌else◌, arith, pos, inl}
use ele.Str.{Memory, memmove, memcmp, strncmp, safestrcpy}
use ele.Str.Move.{moved, memmove-moved}
use ele.Str.Compare.{Compared, memcmp-Compared}
use ele.Str.Copy.{IsCopied, safestrcpy-IsCopied}

abbrev memory : Memory
memory a = if a == 100 then 97 else if a == 101 then 98 else if a == 200 then 97 else 0

-- An overlapping move by one byte.
memmove-moved_example : memmove 101 100 2 memory 102 ≡ moved 101 100 2 memory 102
memmove-moved_example = memmove-moved 101 100 2 memory 102

memcmp-Compared_example : Compared 100 200 2 memory (memcmp 100 200 2 memory)
memcmp-Compared_example = memcmp-Compared 2 100 200 memory

strncmp_runs : strncmp 100 200 5 memory ≡ pos 98
unfolding strncmp
strncmp_runs = refl

safestrcpy-IsCopied_example : IsCopied 300 100 3 memory (safestrcpy 300 100 (pos 3) memory)
safestrcpy-IsCopied_example = safestrcpy-IsCopied 300 100 2 memory (inl (omega arith))
