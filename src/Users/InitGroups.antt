-- ===== src/Users/InitGroups.antt =====
-- linux-api-kerrisk/procid/initgroups.c: the supplementary groups of a user, from the group database.
use operating_systems_theory.Common.{
  ℕ, Bool, Bool-cases, List, Option, [], append-nil, arith, false, if◌then◌else◌, inl, inr, leb,
  length, ltb, none, not, some, ◌++◌, ◌+◌, ◌||◌, ◌∙◌, ◌∷◌, ◌≡◌, ◌≤◌, append_assoc, length-append,
  suc, ◌<◌,
}
use Prim.Native.String.{String}
use text.Mathlib.Text.{◌==◌ as str_eq}
mod Examples

-- An entry of the group database.
pub record Group : Type 0 where
  pub gid : ℕ
  pub members : List String

-- The outcome of a call: an error, or the list that `setgroups` was given and what it returned. The
-- error of `setgroups` is its result.
pub data Outcome : Type 0 where
  einval : Outcome
  seteuid_failed : Outcome
  not_restored : List ℕ → Outcome
  result : List ℕ → Bool → Outcome

-- What the system answers: to `seteuid(0)`, to `setgroups` and to `seteuid(euid)`.
pub record System : Type 0 where
  pub becomes_root : Bool
  pub sets_groups : Bool
  pub restores : Bool

-- The loop over the members of one group.
unfoldable pub is_member : String → List String → Bool
is_member user [] = false
is_member user (m ∷ ms) = str_eq m user || is_member user ms

-- The loop over the database, with the list collected so far; `none` where the list is full. `max` is
-- `NGROUPS_MAX`.
pub collect : (max : ℕ) → String → List Group → List ℕ → Option (List ℕ)
unfolding is_member
collect max user [] gids = some gids
collect max user (g ∷ gs) gids =
    let skip = collect max user gs gids in
    let more = collect max user gs (gids ++ g.gid ∷ []) in
    if is_member user g.members then (if leb max (length gids) then none else more) else skip

-- What follows the loop.
pub apply : (max : ℕ) → System → (group : ℕ) → Option (List ℕ) → Outcome
apply max sys group none = einval
apply max sys group (some gids) =
    if leb max (length gids)
    then einval
    else if not sys.becomes_root
    then seteuid_failed
    else if not sys.restores
    then not_restored (gids ++ group ∷ [])
    else result (gids ++ group ∷ []) sys.sets_groups

pub initgroups : (max : ℕ) → System → List Group → String → (group : ℕ) → Outcome
unfolding collect apply
initgroups max sys db user group = apply max sys group (collect max user db [])

-- The groups that name the user, in the order of the database.
unfoldable pub groups_of : String → List Group → List ℕ
groups_of user [] = []
groups_of user (g ∷ gs) =
    if is_member user g.members then g.gid ∷ groups_of user gs else groups_of user gs

collect-groups_of :
    (max : ℕ) (user : String) (db : List Group) (gids : List ℕ)
    → length gids ≤ max
    → collect max user db gids ≡ (
        if leb (length gids + length (groups_of user db)) max
        then some (gids ++ groups_of user db)
        else none)
unfolding collect groups_of
collect-groups_of max user [] gids h = rw (append-nil gids) (ground arith)
collect-groups_of max user (g ∷ gs) gids h = elim (Bool-cases (is_member user g.members)) [
  | inr out ↦ rw out (collect-groups_of max user gs gids h)
  | inl mem ↦ elim (Bool-cases (leb max (length gids))) [
    | inl full ↦ rw (mem, full) (ground arith)
    | inr room ↦
        let longer : length (gids ++ g.gid ∷ []) ≡ length gids + 1 =
          length-append gids (g.gid ∷ []) in
        let moved : length gids + 1 + length (groups_of user gs)
            ≡ length gids + suc (length (groups_of user gs)) =
          omega arith in
        let fits : length gids < max = ground arith in
        rw (mem, room)
          (collect-groups_of max user gs (gids ++ g.gid ∷ []) (omega arith)
            ∙ rw (longer, moved, append_assoc gids (g.gid ∷ []) (groups_of user gs)))
  ]
]

-- `initgroups` gives `setgroups` the groups that name the user, in the order of the database, and the
-- extra group behind them, if those that name the user are fewer than `NGROUPS_MAX`, and fails with
-- `EINVAL` otherwise, before it changes its user id. So the list never has more than `NGROUPS_MAX`
-- entries.
pub initgroups-groups_of :
    (max : ℕ) (sys : System) (db : List Group) (user : String) (group : ℕ)
    → initgroups max sys db user group ≡ (
        if ltb (length (groups_of user db)) max
        then (if not sys.becomes_root
            then seteuid_failed
            else if not sys.restores
            then not_restored (groups_of user db ++ group ∷ [])
            else result (groups_of user db ++ group ∷ []) sys.sets_groups)
        else einval)
unfolding initgroups
initgroups-groups_of max sys db user group = ground (arith, collect-groups_of max user db [])
