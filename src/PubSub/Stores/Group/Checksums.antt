-- ===== src/PubSub/Stores/Group/Checksums.antt =====
-- Two nodes compare their views of a group by its checksum.
use mathlib.Core.List.Permᴰ
use didcomm_prober.Prelude.{
  ◌≡◌, ◌≢◌, Text, lookup, values, [], some, arith, keys-Nodup, perm_of_lookup,
}
use didcomm_prober.PubSub.Validator.{Digest, calculate}
use didcomm_prober.PubSub.Validator.Order.{calculate-perm}
use didcomm_prober.PubSub.Stores.Group.{Group, Store, entries, checksum}
use didcomm_prober.PubSub.Stores.Group.Sound.{IsIndexed, IsSound, labels-values}

calculate_of_lookup :
    (d : Digest) (g h : Group)
    → IsIndexed g
    → IsIndexed h
    → ((l : Text) → lookup l (entries g.members) ≡ lookup l (entries h.members))
    → calculate d (values (entries g.members)) ≡ calculate d (values (entries h.members))
calculate_of_lookup d g h i j same =
    calculate-perm d (values (entries g.members)) (values (entries h.members))
      ∣ Permᴰ.map (λ e. e.1)
        (perm_of_lookup (entries g.members) (entries h.members) i.distinct j.distinct same) ∣₁
      (rw (labels-values (entries g.members) i.labelled)
        (keys-Nodup (entries g.members) i.distinct))

-- If two sound stores hold a group, with members, and the same under every label,
-- they hold the same checksum for it, whatever the order of the maps in each.
pub checksum_agree :
    (d : Digest) (s t : Store) (topic : Text) (g h : Group)
    → IsSound d s
    → IsSound d t
    → lookup topic s ≡ some g
    → lookup topic t ≡ some h
    → entries g.members ≢ []
    → entries h.members ≢ []
    → ((l : Text) → lookup l (entries g.members) ≡ lookup l (entries h.members))
    → checksum topic s ≡ checksum topic t
unfolding checksum
checksum_agree d s t topic g h ss st fs ft ng nh same =
    let a = ss topic g fs in
    let b = st topic h ft in
    ground (arith, fs, ft, a.sum, b.sum, calculate_of_lookup d g h a.indexed b.indexed same)
