-- ===== src/Args/Tests.antt =====
-- A call of a small process with the string "hi", where the theorems apply.
use ele.Common.{◌==◌, if◌then◌else◌, arith}
use ele.Args.{Caller, argstr}
use ele.Args.Checks.{Checked, argstr-Checked}

-- The argument at 24 is the pointer 40.
abbrev some_caller : Caller
some_caller = record {
  sz = 64;
  esp = 20;
  bytes = λ a. if a == 24 then 40 else if a == 40 then 104 else if a == 41 then 105 else 0;
}

argstr-Checked_example : Checked 0 some_caller (argstr 0 some_caller)
argstr-Checked_example = argstr-Checked 0 some_caller (omega arith)
