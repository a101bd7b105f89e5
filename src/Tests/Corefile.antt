-- ===== src/Tests/Corefile.antt =====
-- A Corefile as a list of tokens, each with the mark of the first one of a line.
use valon.Prelude.{
  ℕ, ◌≤◌, ◌<◌, ◌≡◌, ◌≢◌, Bool, true, false, Option, none, List, [], ◌∷◌, Bytes, codes, err, length,
  if◌then◌else◌, ◌≟◌, arith,
}
use valon.Plugin.Setup.{Controller, IsController, out_of_fuel, default_settings, parse_corefile}
use valon.Plugin.Setup.Ends.{parse_corefile-ends}

-- the current token and the rest
abbrev pub Tokens : Type 0
Tokens = Bytes × List (Bool × Bytes)

abbrev pub load_next : Tokens → Bool × Tokens
load_next (cur, []) = (false, (cur, []))
load_next (cur, (first, x) ∷ rest) = (true, (x, rest))

abbrev pub load_in_block : Tokens → Bool × Tokens
load_in_block (cur, []) = (false, (cur, []))
load_in_block (cur, (first, x) ∷ rest) = (if x ≟ codes "}" then false else true, (x, rest))

abbrev pub load_arg : Tokens → Bool × Tokens
load_arg (cur, (false, x) ∷ rest) = (true, (x, rest))
load_arg t = (false, t)

abbrev pub take_args : List (Bool × Bytes) → List Bytes × List (Bool × Bytes)
take_args ((false, x) ∷ rest) = let (args, after) = take_args rest in (x ∷ args, after)
take_args rest = ([], rest)

length-take_args : (ts : List (Bool × Bytes)) → length (take_args ts).1 ≤ length ts
length-take_args [] = omega arith
length-take_args ((true, x) ∷ rest) = omega arith
length-take_args ((false, x) ∷ rest) = omega (arith, length-take_args rest)

abbrev pub tokens : Controller Tokens
tokens = record {
  next = load_next;
  next_block = load_in_block;
  next_arg = load_arg;
  remaining_args = λ t. ((take_args t.1).0, (t.0, (take_args t.1).1));
  val = λ t. t.0;
}

load_next-loads : (t : Tokens) → (load_next t).0 ≡ true → length (load_next t).1.1 < length t.1
load_next-loads (cur, []) h = absurd cc
load_next-loads (cur, x ∷ rest) h = omega arith

load_next-ends : (t : Tokens) → length (load_next t).1.1 ≤ length t.1
load_next-ends (cur, []) = omega arith
load_next-ends (cur, x ∷ rest) = omega arith

load_in_block-loads :
    (t : Tokens) → (load_in_block t).0 ≡ true → length (load_in_block t).1.1 < length t.1
load_in_block-loads (cur, []) h = absurd cc
load_in_block-loads (cur, x ∷ rest) h = omega arith

load_in_block-ends : (t : Tokens) → length (load_in_block t).1.1 ≤ length t.1
load_in_block-ends (cur, []) = omega arith
load_in_block-ends (cur, x ∷ rest) = omega arith

load_arg-reads : (t : Tokens) → length (load_arg t).1.1 ≤ length t.1
load_arg-reads (cur, []) = omega arith
load_arg-reads (cur, (true, x) ∷ rest) = omega arith
load_arg-reads (cur, (false, x) ∷ rest) = omega arith

tokens-IsController : IsController tokens
tokens-IsController = record {
  unread = λ t. length t.1;
  next_loads = load_next-loads;
  next_ends = load_next-ends;
  next_block_loads = load_in_block-loads;
  next_block_ends = load_in_block-ends;
  next_arg_reads = load_arg-reads;
  remaining_args_reads = λ t. length-take_args t.1;
}

abbrev no_duration : Bytes → Option ℕ
no_duration text = none

-- valon { wg_interface wg1 }, with the brace that opens the block left out
abbrev corefile : Tokens
corefile = (
  [],
  (true, codes "valon")
      ∷ (true, codes "wg_interface")
      ∷ (false, codes "wg1")
      ∷ (true, codes "etcd_endpoints")
      ∷ (false, codes "a:2379")
      ∷ (false, codes "b:2379")
      ∷ (true, codes "}")
      ∷ [],
)

parse_corefile-ends_example :
    parse_corefile tokens no_duration 8 corefile default_settings ≢ err out_of_fuel
unfolding tokens-IsController
parse_corefile-ends_example =
    parse_corefile-ends tokens tokens-IsController no_duration 8 corefile (omega arith)
