-- ===== src/Index/Node.antt =====
-- IndexNodeHandler of storage/index/bplus_tree.cpp, and the structs of bplus_tree.h. A node holds the
-- fields of both kinds: the header, the links of a leaf, the items of a leaf and those of an inner
-- node, which the source lays over one another in the page. `none` is BP_INVALID_PAGE_NUM.
use oceanbase_jp.Prelude.{
  ℕ, ◌+◌, ◌-◌, ◌/◌, Bool, true, false, Option, none, some, ltb, not, if◌then◌else◌,
}
use oceanbase_jp.Record.Page.{Rid}
use oceanbase_jp.Record.Layout.{page_data_size}

pub record IndexFileHeader : Type 0 where
  pub root_page : Option ℕ
  pub internal_max_size : ℕ
  pub leaf_max_size : ℕ
  pub attr_length : ℕ
  pub key_length : ℕ

-- sizeof(RID) and sizeof(PageNum)
abbrev pub rid_size : ℕ
rid_size = 8

abbrev pub page_num_size : ℕ
page_num_size = 4

-- LeafIndexNode::HEADER_SIZE and InternalIndexNode::HEADER_SIZE
abbrev pub leaf_header_size : ℕ
leaf_header_size = 20

abbrev pub internal_header_size : ℕ
internal_header_size = 12

unfoldable pub calc_internal_page_capacity : ℕ → ℕ
calc_internal_page_capacity attr_length =
    let item_size = attr_length + rid_size + page_num_size in
    (page_data_size - internal_header_size) / item_size

unfoldable pub calc_leaf_page_capacity : ℕ → ℕ
calc_leaf_page_capacity attr_length =
    let item_size = attr_length + rid_size + rid_size in
    (page_data_size - leaf_header_size) / item_size

pub record Item {ℓ} (K : Type ℓ) (V : Type 0) : Type ℓ where
  pub key : K
  pub value : V

pub record Node {ℓ} (K : Type ℓ) : Type ℓ where
  pub is_leaf : Bool
  pub key_num : ℕ
  pub parent : Option ℕ
  pub prev_brother : Option ℕ
  pub next_brother : Option ℕ
  pub items : ℕ → Item K Rid
  pub children : ℕ → Item K ℕ

module _ {ℓ} {K : Type ℓ} where
  -- A page of zeros, with the key of zeros.
  unfoldable pub clear_page : K → Node K
  clear_page zero_key = record {
    is_leaf = false;
    key_num = 0;
    parent = some 0;
    prev_brother = some 0;
    next_brother = some 0;
    items = λ i. record { key = zero_key; value = record { page_num = 0; slot_num = 0 } };
    children = λ i. record { key = zero_key; value = 0 };
  }

  -- IndexNodeHandler::init_empty
  unfoldable pub init_empty : Node K → Bool → Node K
  init_empty node leaf = record node { is_leaf = leaf; key_num = 0; parent = none }

  -- IndexNodeHandler::validate: a root has an item, and an inner root two.
  unfoldable pub validate : Node K → Bool
  validate node = elim node.parent [
    | some _ ↦ true
    | none ↦
        if ltb node.key_num 1
        then false
        else if not node.is_leaf
        then not (ltb node.key_num 2)
        else true
  ]
