-- ===== src/Migration/Offsets.antt =====
-- Migrations that keep an event's offset (agent_kernel/kernel/persistence/event_schema_migration.py), as the
-- projection service needs them.
use agent_kernel.Prelude.{
  ◌≡◌, sym, ◌∙◌, ap, arith, String, Option, none, some, List, [], ◌∷◌, Option-cases, inl, inr, All,
  Bool-cases, ◌==◌,
}
use agent_kernel.Prelude.Errors.{Outcome, ok, raised, Outcome-cases, ok-injective}
use agent_kernel.Contracts.{RuntimeEvent}
use agent_kernel.Migration.{
  Migration, Migrations, is_edge, find_migration, apply_path, attach_original_schema_version,
  resolve_path, along, migrate, maybe_migrate_event,
}

-- The function of every migration keeps the offset.
abbrev pub KeepsOffset : Migration → Type 0
KeepsOffset m = (e : RuntimeEvent) → (m.fn e).commit_offset ≡ e.commit_offset

find_keeps :
    (src dst : String) (ms : Migrations) (fn : RuntimeEvent → RuntimeEvent) (e : RuntimeEvent)
    → All KeepsOffset ms
    → find_migration src dst ms ≡ some fn
    → (fn e).commit_offset ≡ e.commit_offset
unfolding find_migration
find_keeps src dst [] fn e k h = ground (arith, h)
find_keeps src dst (m ∷ ms) fn e (k, ks) h = elim (Bool-cases (is_edge src dst m)) [
  | inl b ↦ ground (arith, h, b, k e)
  | inr b ↦ find_keeps src dst ms fn e ks (ground (arith, h, b))
]

apply_keeps :
    (ms : Migrations) (path : List (String × String)) (e m : RuntimeEvent)
    → All KeepsOffset ms
    → apply_path ms path e ≡ ok m
    → m.commit_offset ≡ e.commit_offset
unfolding apply_path
apply_keeps ms [] e m k h = ap (λ (z : RuntimeEvent). z.commit_offset) (sym (ok-injective e m h))
apply_keeps ms ((src, dst) ∷ path) e m k h = elim (Option-cases (find_migration src dst ms)) [
  | inl absent ↦ ground (arith, h, absent)
  | inr (fn, there) ↦
      let e' = record (fn e) { schema_version = dst } in
      apply_keeps ms path e' m k (ground (arith, h, there)) ∙ find_keeps src dst ms fn e k there
]

attach_keeps :
    (e m : RuntimeEvent) → (attach_original_schema_version e m).commit_offset ≡ m.commit_offset
unfolding attach_original_schema_version
attach_keeps e m = ground arith

along_keeps :
    (ms : Migrations) (e m : RuntimeEvent) (o : Outcome (List (String × String)))
    → All KeepsOffset ms
    → along ms e o ≡ ok m
    → m.commit_offset ≡ e.commit_offset
along_keeps ms e m (raised x) k h = ground (arith, h)
along_keeps ms e m (ok []) k h = ground (arith, h)
along_keeps ms e m (ok (edge ∷ path)) k h = elim (Outcome-cases (apply_path ms (edge ∷ path) e)) [
  | inl (x, a) ↦ ground (arith, h, a)
  | inr (m', a) ↦
      let same : attach_original_schema_version e m' ≡ m = ground (arith, h, a) in
      ap (λ (z : RuntimeEvent). z.commit_offset) (sym same)
      ∙ attach_keeps e m'
      ∙ apply_keeps ms (edge ∷ path) e m' k a
]

-- What the configured migration returns has the offset of its event, if every registered migration keeps it.
pub maybe_migrate_keeps :
    (ms : Migrations) (target : Option String) (e m : RuntimeEvent)
    → All KeepsOffset ms
    → maybe_migrate_event (some ms) target e ≡ ok m
    → m.commit_offset ≡ e.commit_offset
unfolding maybe_migrate_event migrate
maybe_migrate_keeps ms none e m k h =
    ap (λ (z : RuntimeEvent). z.commit_offset) (sym (ok-injective e m h))
maybe_migrate_keeps ms (some target) e m k h = elim (Bool-cases (e.schema_version == target)) [
  | inl b ↦
      let same : e ≡ m = ground (arith, h, b) in
      ap (λ (z : RuntimeEvent). z.commit_offset) (sym same)
  | inr b ↦ along_keeps ms e m (resolve_path ms e.schema_version target) k (ground (arith, h, b))
]
