-- ===== src/Nodes/Create.antt =====
-- A node that is created is stored with its properties.
use ml_metadata_l_metadata_s.Prelude.{
  ℕ, ◌+◌, String, ◌≡◌, refl, ap, sym, ◌∙◌, subst, Bool, true, false, Option, none, some, List, [],
  ◌∷◌, ◌++◌, arith,
}
use ml_metadata_l_metadata_s.Status.{ok}
use ml_metadata_l_metadata_s.Maps.{lookup, IsMap}
use ml_metadata_l_metadata_s.Messages.{
  text_of, Kind, execution, artifact, context, TypeMessage, Node, number_of,
}
use ml_metadata_l_metadata_s.Tables.{Db, NodeRow, PropertyRow, Columns, update_kind}
use ml_metadata_l_metadata_s.Tables.NodeQueries.{uri_column, insert_node, has_name, columns_at}
use ml_metadata_l_metadata_s.Types.{find_type_by_id}
use ml_metadata_l_metadata_s.Values.{Codec}
use ml_metadata_l_metadata_s.Properties.{modify_properties}
use ml_metadata_l_metadata_s.Properties.Validate.{AllConform, validate_properties_iff}
use ml_metadata_l_metadata_s.Properties.Steps.{Holds}
use ml_metadata_l_metadata_s.Properties.Modify.{AreStorable, modify_properties_stores}
use ml_metadata_l_metadata_s.Properties.Spaces.{modify_properties-Kept}
use ml_metadata_l_metadata_s.Nodes.{name_missing, create_node, create}

pub update_kind_self {ℓ} :
    {A : Type ℓ} (f : Kind → A) (kind : Kind) (v : A) → update_kind f kind v kind ≡ v
update_kind_self f execution v = refl
update_kind_self f artifact v = refl
update_kind_self f context v = refl

-- What is stored for a node: the two maps of properties.
abbrev pub HoldsNode : Codec → ℕ → Node → List PropertyRow → Type 0
HoldsNode codec id node rows =
    ((k : String) → Holds codec (columns_at id false k rows) (lookup k node.properties))
    × ((k : String) → Holds codec (columns_at id true k rows) (lookup k node.custom_properties))

Holds-nothing : (codec : Codec) (o : Option Columns) → o ≡ none → Holds codec o none
Holds-nothing codec none h = tt
Holds-nothing codec (some c) h = ground arith

-- The two calls of ModifyProperties on a new node.
both_maps :
    (codec : Codec) (id : ℕ) (node : Node) (rows : List PropertyRow)
    → IsMap node.properties
    → IsMap node.custom_properties
    → AreStorable codec node.properties
    → AreStorable codec node.custom_properties
    → ((is_custom : Bool) (k : String) → columns_at id is_custom k rows ≡ none)
    → (m n : ℕ) × (mid rows' : List PropertyRow) × (modify_properties codec node.properties [] id
          false rows
        ≡ (ok m, mid))
      × (modify_properties codec node.custom_properties [] id true mid ≡ (ok n, rows'))
      × HoldsNode codec id node rows'
unfolding lookup
both_maps codec id node rows p c sp sc fresh =
    let (m, mid, e, first) =
      modify_properties_stores codec node.properties [] id false rows p tt sp
        (λ k. Holds-nothing codec (columns_at id false k rows) (fresh false k)) in
    let free : (k : String) → columns_at id true k mid ≡ none = λ k.
      ap (λ r. columns_at id true k r.1) (sym e)
      ∙ modify_properties-Kept id false true refl k none codec node.properties rows
          (fresh true k) in
    let (n, rows', f, second) =
      modify_properties_stores codec node.custom_properties [] id true mid c tt sc
        (λ k. Holds-nothing codec (columns_at id true k mid) (free k)) in
    (
      m,
      n,
      mid,
      rows',
      e,
      f,
      (
        λ k.
            subst (λ o. Holds codec o (lookup k node.properties))
              (sym (
                ap (λ r. columns_at id false k r.1) (sym f)
                ∙ modify_properties-Kept id true false refl k (columns_at id false k mid) codec
                    node.custom_properties mid refl))
              (first k),
        second,
      ),
    )

-- The row that is inserted.
abbrev pub node_row : Db → Kind → ℕ → Node → NodeRow
node_row db kind now node = record {
  id = db.last_node_id kind + 1;
  type_id = number_of node.type_id;
  name = node.name;
  uri = uri_column kind (text_of node.uri);
  state = node.state;
  create_time = now;
  update_time = now;
}

-- What the request and the tables are, where a node can be created.
pub record CanCreate (kind : Kind) (codec : Codec) (db : Db) (node : Node) (type : TypeMessage)
    (t : ℕ) : Type 0 where
  pub typed : node.type_id ≡ some t
  pub type_found : (find_type_by_id kind t db).0 ≡ ok type
  pub conforms : AllConform type.properties node.properties
  pub has_its_name : name_missing kind node.name ≡ false
  pub name_free : has_name t node.name (db.nodes kind) ≡ false
  pub is_map : IsMap node.properties
  pub is_custom_map : IsMap node.custom_properties
  pub storable : AreStorable codec node.properties
  pub custom_storable : AreStorable codec node.custom_properties
  pub fresh :
      (is_custom : Bool) (k : String)
      → columns_at (db.last_node_id kind + 1) is_custom k (db.properties kind) ≡ none

-- The tables after the row and the two property lists.
abbrev created : Db → Kind → ℕ → Node → List PropertyRow → List PropertyRow → Db
created db kind now node mid rows = record db {
  nodes = update_kind db.nodes kind (db.nodes kind ++ node_row db kind now node ∷ []);
  last_node_id = update_kind db.last_node_id kind (db.last_node_id kind + 1);
  properties = update_kind (update_kind db.properties kind mid) kind rows;
}

create-runs :
    (kind : Kind) (codec : Codec) (now : ℕ) (node : Node) (type : TypeMessage) (t : ℕ) (db : Db)
    (m n : ℕ) (mid rows : List PropertyRow)
    → CanCreate kind codec db node type t
    → modify_properties codec node.properties []
        (db.last_node_id kind + 1)
        false
        (db.properties kind)
      ≡ (ok m, mid)
    → modify_properties codec node.custom_properties [] (db.last_node_id kind + 1) true mid
      ≡ (ok n, rows)
    → create kind codec now node db
      ≡ (ok (db.last_node_id kind + 1), created db kind now node mid rows)
unfolding create create_node insert_node find_type_by_id
create-runs kind codec now node type t db m n mid rows c e f =
    rw
      (
        c.typed,
        c.type_found,
        (validate_properties_iff node.properties type.properties).1 c.conforms,
        c.has_its_name,
        c.name_free,
        e,
        update_kind_self db.properties kind mid,
        f,
      )
      refl

-- Where a node can be created, the call succeeds with the next id, the node's row is the last one of
-- its table, and the two maps of properties that are stored for the id are exactly the given ones.
-- The type is there and the properties conform to it, a context has a name, the name is not taken in
-- the type, the maps have distinct keys and storable values, and nothing is stored for the next id.
pub create_stores :
    (kind : Kind) (codec : Codec) (now : ℕ) (node : Node) (type : TypeMessage) (t : ℕ) (db : Db)
    → CanCreate kind codec db node type t
    → (db' : Db) × (create kind codec now node db ≡ (ok (db.last_node_id kind + 1), db'))
      × (db'.nodes kind ≡ db.nodes kind ++ node_row db kind now node ∷ [])
      × HoldsNode codec (db.last_node_id kind + 1) node (db'.properties kind)
create_stores kind codec now node type t db c =
    let id = db.last_node_id kind + 1 in
    let (m, n, mid, rows, e, f, holds) =
      both_maps codec id node (db.properties kind) c.is_map c.is_custom_map c.storable
        c.custom_storable c.fresh in
    (
      created db kind now node mid rows,
      create-runs kind codec now node type t db m n mid rows c e f,
      update_kind_self db.nodes kind (db.nodes kind ++ node_row db kind now node ∷ []),
      subst (HoldsNode codec id node)
          (sym (update_kind_self (update_kind db.properties kind mid) kind rows)) holds,
    )
