-- ===== src/Condition.antt =====
-- The condition language of JIL (autosys/parser/condition_parser.py): the syntax tree and its
-- token kinds. The children hold the tokenizer, the recursive-descent parser, the evaluator, the
-- printer and the list of referenced jobs.
pub mod Eval
pub mod Parser
pub mod Tokenizer
use autosys_clone.Prelude.{ℤ, Decimal, Text, Bool, true, false, Option, codes, List}

-- The keys of `_FUNC_CHECKS`. `other` is a name with no entry, which no parse gives.
pub data Func : Type 0 where
  success failure done notrunning terminated activated : Func
  s f d n t : Func
  other : Text → Func

abbrev pub func_text : Func → Text
func_text success = codes "success"
func_text failure = codes "failure"
func_text done = codes "done"
func_text notrunning = codes "notrunning"
func_text terminated = codes "terminated"
func_text activated = codes "activated"
func_text s = codes "s"
func_text f = codes "f"
func_text d = codes "d"
func_text n = codes "n"
func_text t = codes "t"
func_text (other name) = name

-- The comparison operators, `_CMP_KINDS`.
pub data Cmp : Type 0 where
  eq neq lt gt le ge : Cmp

-- A ConditionNode.
pub data Node : Type 0 where
  job_cond : Func → Text → Option Text → Option Decimal → Node
  exit_code_cond : Text → Cmp → ℤ → Node
  value_cond : Text → Cmp → Text → Node
  and_node : Node → Node → Node
  or_node : Node → Node → Node
  not_node : Node → Node

-- A `_CondToken` by its kind, with the text of those kinds whose text is read. The EOF token is
-- the end of the list.
pub data Token : Type 0 where
  func : Func → Token
  value_kw exitcode_kw and_kw or_kw qstring number ident : Text → Token
  lparen rparen not_kw comma : Token
  cmp : Cmp → Token
