-- ===== src/Console/Compile.antt =====
-- The actions of the parser against a translation of one statement at a time.
use os_sski.Common.{
  ℕ, zero, suc, ◌^◌, ◌<◌, arith, ◌≡◌, refl, sym, ap, ◌∙◌, List, [], ◌∷◌, ◌++◌, append_assoc,
  append-nil, replicate,
}
use os_sski.Wire.Instruction.{
  Instruction, c_request_exit, c_request_read, c_request_write, c_request_no_op, c_request_io,
  c_request_copy,
}
use os_sski.Console.{
  Statement, atoi, times, request_instruction, no_op_loop, request_no_op, request, requests,
}

abbrev one : ℕ → ℕ → ℕ → List Instruction
one icode param0 param1 = record { icode = icode; param0 = param0; param1 = param1 } ∷ []

-- The instructions of a statement; `NO_OP n` stands for `n` of them.
abbrev pub compiled : Statement → List Instruction
compiled Statement.exit = one c_request_exit 0 0
compiled (Statement.no_op n) =
    replicate n (record { icode = c_request_no_op; param0 = 0; param1 = 0 })
compiled (Statement.io n) = one c_request_io n 0
compiled (Statement.read n) = one c_request_read n 0
compiled (Statement.write a b) = one c_request_write a b
compiled (Statement.copy a b) = one c_request_copy a b

abbrev pub compile : List Statement → List Instruction
compile [] = []
compile (s ∷ program) = compiled s ++ compile program

-- The constants are an `int` each.
abbrev pub IsInt : ℕ → Type 0
IsInt n = n < 2 ^ 31

abbrev pub IntConstants : Statement → Type 0
IntConstants Statement.exit = Unit
IntConstants (Statement.no_op n) = IsInt n
IntConstants (Statement.io n) = IsInt n
IntConstants (Statement.read n) = IsInt n
IntConstants (Statement.write a b) = IsInt a × IsInt b
IntConstants (Statement.copy a b) = IsInt a × IsInt b

abbrev pub AllInts : List Statement → Type 0
AllInts [] = Unit
AllInts (s ∷ program) = IntConstants s × AllInts program

atoi-IsInt : (n : ℕ) → IsInt n → atoi n ≡ n
unfolding atoi
atoi-IsInt n small = ground arith

times-IsInt : (n : ℕ) → IsInt n → times n ≡ n
unfolding times
times-IsInt n small = ground arith

no_op_loop-replicate :
    (n : ℕ) (commands : List Instruction)
    → no_op_loop n commands ≡ commands ++ compiled (Statement.no_op n)
unfolding no_op_loop request_instruction
no_op_loop-replicate zero commands = sym (append-nil commands)
no_op_loop-replicate (suc n) commands =
    no_op_loop-replicate n (commands ++ one c_request_no_op 0 0)
    ∙ append_assoc commands (one c_request_no_op 0 0) (compiled (Statement.no_op n))

request-compiled :
    (s : Statement) (commands : List Instruction)
    → IntConstants s
    → request s commands ≡ commands ++ compiled s
unfolding request request_instruction request_no_op
request-compiled Statement.exit commands w = refl
request-compiled (Statement.no_op n) commands w =
    rw (atoi-IsInt n w, times-IsInt n w) (no_op_loop-replicate n commands)
request-compiled (Statement.io n) commands w = rw (atoi-IsInt n w) refl
request-compiled (Statement.read n) commands w = rw (atoi-IsInt n w) refl
request-compiled (Statement.write a b) commands w = rw (atoi-IsInt a w.0, atoi-IsInt b w.1) refl
request-compiled (Statement.copy a b) commands w = rw (atoi-IsInt a w.0, atoi-IsInt b w.1) refl

-- Whatever was there before, the actions of the parser append the instructions of each statement in
-- order, `NO_OP n` as `n` instructions and every other statement as one, for constants below 2^31.
pub requests-compile :
    (program : List Statement) (commands : List Instruction)
    → AllInts program
    → requests program commands ≡ commands ++ compile program
unfolding requests
requests-compile [] commands w = sym (append-nil commands)
requests-compile (s ∷ program) commands w =
    requests-compile program (request s commands) w.1
    ∙ ap (λ (cs : List Instruction). cs ++ compile program) (request-compiled s commands w.0)
    ∙ append_assoc commands (compiled s) (compile program)
