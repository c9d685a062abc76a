-- ===== src/Model/Function.antt =====
-- src/model.rs: `InlineNode`, `CallSite` and `Function`.
use gsym_rs.Prelude.{ℕ, List, Option}
use gsym_rs.Model.{LineEntry}
use gsym_rs.Model.Range.{AddressRange}

mutual
  pub data InlineNode : Type 0 where
    inline_node :
        (ranges : List AddressRange) (name : List ℕ) (call_file call_line : ℕ)
        (children : InlineNodes)
        → InlineNode

  pub data InlineNodes : Type 0 where
    no_nodes : InlineNodes
    with_node : InlineNode → InlineNodes → InlineNodes

-- `CallSiteFlags` is its bits.
pub record CallSite : Type 0 where
  pub return_offset : ℕ
  pub flags : ℕ
  pub match_regex : List (List ℕ)

mutual
  pub data Function : Type 0 where
    function :
        (range : AddressRange) (name : List ℕ) (lines : List LineEntry) (inline : Option InlineNode)
        (merged : Functions) (call_sites : List CallSite)
        → Function

  pub data Functions : Type 0 where
    no_functions : Functions
    with_function : Function → Functions → Functions

abbrev pub range_of : Function → AddressRange
range_of (function range _ _ _ _ _) = range
