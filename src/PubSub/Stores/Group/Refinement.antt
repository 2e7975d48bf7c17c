-- ===== src/PubSub/Stores/Group/Refinement.antt =====
-- The group store, its checksums and its nil maps included, is no more than a table of who is in
-- which group.
use didcomm_prober.Prelude.{
  ◌≡◌, refl, ◌∙◌, Text, ◌==◌, Option, none, List, [], ◌∷◌, arith, if◌then◌else◌,
}
use didcomm_prober.Domain.{Member, GroupParams}
use didcomm_prober.PubSub.Validator.{Digest}
use didcomm_prober.PubSub.Stores.Group.{
  Store, put_members, add_membrs, delete_membr, delete_topic, set_params,
}
use didcomm_prober.PubSub.Stores.Group.Reads.{member_of, latest}
use didcomm_prober.PubSub.Stores.Group.Entries.{
  member_of-update, member_of-put_all, member_of-delete_membr, member_of-set_params,
  member_of-remove,
}

pub data Op : Type 0 where
  adds : Text → List Member → Op
  deletes : Text → Text → Op
  drops : Text → Op
  sets : Text → GroupParams → Op

-- the table: the member of a topic under a label
abbrev pub Table : Type 0
Table = Text → Text → Option Member

-- what an operation does to the table
unfoldable pub on_table : Op → Table → Table
on_table (adds topic ms) g t l = if topic == t then latest l ms (g t l) else g t l
on_table (deletes topic label) g t l =
    if topic == t then (if label == l then none else g t l) else g t l
on_table (drops topic) g t l = if topic == t then none else g t l
on_table (sets topic gp) g t l = g t l

unfoldable pub all_on_table : List Op → Table → Table
all_on_table [] g = g
all_on_table (op ∷ ops) g = all_on_table ops (on_table op g)

module _ (d : Digest) (order : List Member → List Member) where
  unfoldable pub apply : Op → Store → Store
  apply (adds topic ms) s = (add_membrs d order topic ms s).1
  apply (deletes topic label) s = (delete_membr d order topic label s).1
  apply (drops topic) s = delete_topic topic s
  apply (sets topic gp) s = (set_params topic gp s).1

  unfoldable pub apply_all : List Op → Store → Store
  apply_all [] s = s
  apply_all (op ∷ ops) s = apply_all ops (apply op s)

  apply_refines :
      (op : Op) (s : Store) (t l : Text)
      → member_of t l (apply op s) ≡ on_table op (λ t l. member_of t l s) t l
  unfolding apply on_table add_membrs delete_topic
  apply_refines (adds topic ms) s t l = ground (
    arith,
    member_of-update d order topic t l (put_members topic ms s),
    member_of-put_all d order topic t l ms s,
  )
  apply_refines (deletes topic label) s t l = member_of-delete_membr d order topic t l label s
  apply_refines (drops topic) s t l = member_of-remove topic t l s
  apply_refines (sets topic gp) s t l = member_of-set_params d order topic t l gp s

  on_table_ext :
      (op : Op) (g h : Table)
      → ((t l : Text) → g t l ≡ h t l)
      → (t l : Text) → on_table op g t l ≡ on_table op h t l
  unfolding on_table
  on_table_ext (adds topic ms) g h same t l = rw (same t l) refl
  on_table_ext (deletes topic label) g h same t l = rw (same t l) refl
  on_table_ext (drops topic) g h same t l = rw (same t l) refl
  on_table_ext (sets topic gp) g h same t l = same t l

  all_on_table_ext :
      (ops : List Op) (g h : Table)
      → ((t l : Text) → g t l ≡ h t l)
      → (t l : Text) → all_on_table ops g t l ≡ all_on_table ops h t l
  unfolding all_on_table
  all_on_table_ext [] g h same = same
  all_on_table_ext (op ∷ ops) g h same =
      all_on_table_ext ops (on_table op g) (on_table op h) (on_table_ext op g h same)

  -- After any sequence of AddMembrs, DeleteMembr, DeleteTopic and SetParams, whether or not they report
  -- errors, and whatever the checksums and the order of the maps, a group holds under each label the
  -- member that the same sequence leaves in a table of topics and labels.
  pub apply_all_refines :
      (ops : List Op) (s : Store) (t l : Text)
      → member_of t l (apply_all ops s) ≡ all_on_table ops (λ t l. member_of t l s) t l
  unfolding apply_all all_on_table
  apply_all_refines [] s t l = refl
  apply_all_refines (op ∷ ops) s t l =
      apply_all_refines ops (apply op s) t l
      ∙ all_on_table_ext ops (λ t l. member_of t l (apply op s))
          (on_table op (λ t l. member_of t l s)) (apply_refines op s) t l
