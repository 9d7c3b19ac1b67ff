-- ===== src/Tasks/Notify.antt =====
-- The parent is shown each finished task once.
use swain.Common.{
  String, Bool, true, false, Option, none, some, List, [], ◌∷◌, ◌≡◌, refl, arith, eq_iff, eq_refl,
  Dict, lookup, insert, values, lookup-insert, sym, ◌∙◌, Option-cases, Bool-cases, inl, inr, str_eq,
  any, map, filter-eq-nil, filter-Memᴰ, lookup-Memᴰ,
}
use mathlib.Core.List.{Memᴰ}
use swain.Tasks.{
  Task, Store, Env, noted, mark_notified, mark_parent_notified, persist, awaits_parent,
  pending_parent_notifications,
}
use swain.Tasks.WellFormed.{IsIndexed, lookup-IsIndexed, values-All, mark_notified-IsIndexed}

-- `ids` has `k`.
abbrev pub lists : List String → String → Bool
lists ids k = any (λ i. str_eq i k) ids

abbrev marked : Bool → String → Option Task → Option Task
marked true ts (some t) = some (noted ts t)
marked true ts none = none
marked false ts o = o

-- The tasks of the listed ids carry the time, and all others stay as they were.
lookup-mark_notified :
    (ts : String) (ids : List String) (m : Dict Task) (k : String)
    → lookup k (mark_notified ts ids m) ≡ marked (lists ids k) ts (lookup k m)
unfolding mark_notified
lookup-mark_notified ts [] m k = refl
lookup-mark_notified ts (id ∷ ids) m k = elim (Option-cases (lookup id m)) [
  | inl e ↦ rw e (lookup-mark_notified ts ids m k ∙ ground (arith, eq_iff id k))
  | inr (t, e) ↦ rw e (
      lookup-mark_notified ts ids (insert id (noted ts t) m) k
      ∙ ground (arith, eq_iff id k, lookup-insert id k (noted ts t) m))
]

lists_of_Memᴰ : (t : Task) (ts : List Task) → Memᴰ t ts → lists (map (λ u. u.id) ts) t.id ≡ true
lists_of_Memᴰ t [] m = elim m [ ]
lists_of_Memᴰ t (u ∷ ts) (Memᴰ.head e) = rw (← e, eq_refl t.id) refl
lists_of_Memᴰ t (u ∷ ts) (Memᴰ.tail m) = ground (arith, lists_of_Memᴰ t ts m)

module _ (env : Env) (s : Store) (h : IsIndexed s.tasks) where
  abbrev shown : List String
  shown = map (λ t. t.id) (pending_parent_notifications s)

  shown-awaits :
      (k : String) (t : Task)
      → lookup k s.tasks ≡ some t
      → lists shown k ≡ false
      → awaits_parent t ≡ false
  unfolding pending_parent_notifications
  shown-awaits k t e out = elim (Bool-cases (awaits_parent t)) [
    | inl yet ↦
        let listed =
          lists_of_Memᴰ t _ (filter-Memᴰ awaits_parent t _ (lookup-Memᴰ k t s.tasks e) yet) in
        cc (listed, out, lookup-IsIndexed k t s.tasks h e)
    | inr settled ↦ settled
  ]

  marked-awaits :
      (k : String) (t : Task) (b : Bool) (o : Option Task)
      → (b ≡ false → (u : Task) → o ≡ some u → awaits_parent u ≡ false)
      → marked b env.now o ≡ some t
      → awaits_parent t ≡ false
  unfolding awaits_parent
  marked-awaits k t true none p e = cc
  marked-awaits k t true (some u) p e = ground arith
  marked-awaits k t false o p e = p refl t e

  tasks-mark_parent_notified :
      (ids : List String)
      → (mark_parent_notified env ids s).1.tasks ≡ mark_notified env.now ids s.tasks
  unfolding mark_parent_notified persist
  tasks-mark_parent_notified ids = ground arith

  -- Where the keys of the map are the ids of its tasks, each once: when the parent is marked as told
  -- of all that waits for it, nothing waits any more, also where the disk cannot be written.
  pub pending-mark_parent_notified :
      pending_parent_notifications (mark_parent_notified env shown s).1 ≡ []
  unfolding pending_parent_notifications
  pending-mark_parent_notified =
      filter-eq-nil awaits_parent (values (mark_parent_notified env shown s).1.tasks) (
        rw (tasks-mark_parent_notified shown) (
          values-All (λ t. awaits_parent t ≡ false) _
            (mark_notified-IsIndexed env.now shown s.tasks h)
            (λ k t e.
              marked-awaits k t (lists shown k) (lookup k s.tasks)
                (λ out u found. shown-awaits k u found out)
                (sym (lookup-mark_notified env.now shown s.tasks k) ∙ e))))
