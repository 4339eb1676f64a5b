-- ===== src/Resume/Agreement.antt =====
-- What a checkpoint's config and the current one agree on.
use my_sync.Common.{
  ◌≡◌, ◌∙◌, ap, not, is_empty, refl, Bool, true, false, ◌&&◌, Option, none, some, arith,
}
use my_sync.Config.{Config}
use my_sync.Object.{Object}
use my_sync.Gate.{SyncRecord}
use my_sync.Resume.{eqb, validate_config, with_config}
use my_sync.Common.Key.{Key}
use my_sync.Produce.Compare.{
  Env, Verdict, send, skip, use_first_gate, missing_verdict, common_verdict, gated_verdict,
  plain_verdict, marks,
}
use my_sync.Produce.{verdict_of, ignored_dir}

both_true : {a b : Bool} → a && b ≡ true → (a ≡ true) × (b ≡ true)
both_true {a = true} h = (refl, h)
both_true {a = false} h = cc

same : (a b : Bool) → eqb a b ≡ true → a ≡ b
same a b h = ground arith

-- The fields that steer `produce`.
abbrev pub Agrees : Config → Config → Type 0
Agrees a b =
    (a.delete_src ≡ b.delete_src)
    × (a.delete_dst ≡ b.delete_dst)
    × (a.update ≡ b.update)
    × (a.force_update ≡ b.force_update)
    × (a.existing ≡ b.existing)
    × (a.ignore_existing ≡ b.ignore_existing)
    × (a.links ≡ b.links)
    × (a.check_all ≡ b.check_all)
    × (a.perms ≡ b.perms)
    × (a.dirs ≡ b.dirs)

validate_config-Agrees :
    (old current : Config) → validate_config old current ≡ true → Agrees old current
unfolding validate_config
validate_config-Agrees old current h =
    let (bounds, h₁) = both_true h in
    let (rules, h₂) = both_true h₁ in
    let (deletes, h₃) = both_true h₂ in
    let (strategy, h₄) = both_true h₃ in
    let (checks, h₅) = both_true h₄ in
    let (perms_dirs, h₆) = both_true h₅ in
    let (src, dst) = both_true deletes in
    let (update, s₁) = both_true strategy in
    let (force, s₂) = both_true s₁ in
    let (existing, ignore) = both_true s₂ in
    let (links, c₁) = both_true checks in
    let (all, c₂) = both_true c₁ in
    let (perms, dirs) = both_true perms_dirs in
    (
      same old.delete_src current.delete_src src,
      same old.delete_dst current.delete_dst dst,
      same old.update current.update update,
      same old.force_update current.force_update force,
      same old.existing current.existing existing,
      same old.ignore_existing current.ignore_existing ignore,
      same old.links current.links links,
      same old.check_all current.check_all all,
      same old.perms current.perms perms,
      same old.dirs current.dirs dirs,
    )

marks_same :
    (a b : Config) (o d : Object) (v : Verdict) → Agrees a b → marks a o d v ≡ marks b o d v
unfolding marks
marks_same a b o d v (src, dst, update, force, existing, ignore, links, all, perms, dirs) =
    ground (arith, src, all, perms)

plain_verdict_same :
    (a b : Config) (o d : Object) → Agrees a b → plain_verdict a o d ≡ plain_verdict b o d
unfolding plain_verdict
plain_verdict_same a b o d h =
    let (src, dst, update, force, existing, ignore, links, all, perms, dirs) = h in
    ground (arith, update, force, marks_same a b o d skip h)

gated_verdict_same :
    (env : Env) (a b : Config) (o d : Object)
    → Agrees a b
    → gated_verdict (record env { config = a }) o d ≡ gated_verdict (record env { config = b }) o d
unfolding gated_verdict
gated_verdict_same env a b o d h =
    let (src, dst, update, force, existing, ignore, links, all, perms, dirs) = h in
    ground (arith, force, marks_same a b o d send h)

common_verdict_same :
    (env : Env) (a b : Config) (o d : Object)
    → Agrees a b
    → common_verdict (record env { config = a }) o d
      ≡ common_verdict (record env { config = b }) o d
unfolding common_verdict
common_verdict_same env a b o d h =
    let (src, dst, update, force, existing, ignore, links, all, perms, dirs) = h in
    ground (arith, ignore, gated_verdict_same env a b o d h, plain_verdict_same a b o d h)

verdict_of_same :
    (env : Env) (a b : Config) (o : Object) (rec : Option SyncRecord) (d : Option Object)
    → Agrees a b
    → verdict_of (record env { config = a }) o rec d
      ≡ verdict_of (record env { config = b }) o rec d
unfolding verdict_of use_first_gate missing_verdict
verdict_of_same env a b o rec none h =
    let (src, dst, update, force, existing, ignore, links, all, perms, dirs) = h in
    ground (arith, force, existing, ignore)
verdict_of_same env a b o rec (some d) h =
    let (src, dst, update, force, existing, ignore, links, all, perms, dirs) = h in
    ground (arith, force, existing, ignore, common_verdict_same env a b o d h)

-- A run that goes on from a checkpoint whose config is accepted, and that has the same `--db` and
-- `--gate-table`, which the acceptance does not test, decides about every object as the run that wrote
-- it would have, of one record in the gate's database: the verdict on a source object is the same, and
-- so is whether a directory is left aside and whether extra objects are deleted.
pub verdict_of-validated :
    (opens : Key → Key → Bool) (records : Key → Key → Option SyncRecord) (env : Env)
    (old current : Config) (o : Object) (d : Option Object)
    → validate_config old current ≡ true
    → old.db_dsn ≡ current.db_dsn
    → old.gate_table ≡ current.gate_table
    → (verdict_of (with_config opens env old) o (records old.db_dsn old.gate_table) d
        ≡ verdict_of
            (with_config opens env current)
            o
            (records current.db_dsn current.gate_table)
            d)
      × (ignored_dir (with_config opens env old) o ≡ ignored_dir (with_config opens env current) o)
      × (old.delete_dst ≡ current.delete_dst)
unfolding with_config
verdict_of-validated opens records env old current o d h same_db same_table =
    let agrees = validate_config-Agrees old current h in
    let (src, dst, update, force, existing, ignore, links, all, perms, dirs) = agrees in
    (
      verdict_of_same (with_config opens env old) old current o (records old.db_dsn old.gate_table)
            d agrees
          ∙ (ap (λ dsn. decided dsn old.gate_table) same_db
              ∙ ap (λ table. decided current.db_dsn table) same_table),
      simp (links, dirs),
      dst,
    )
  where
    decided : Key → Key → Verdict
    decided dsn table =
        let gate = not (is_empty dsn) && opens dsn table in
        verdict_of (record env { config = current; gate = gate; gate_buffer = gate }) o
          (records dsn table) d
