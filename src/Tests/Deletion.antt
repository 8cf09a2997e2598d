-- ===== src/Tests/Deletion.antt =====
-- The theorems on the deletion of a backup, applied to an API that holds one Backup and one Job.
use provider_cloudnative_pg.Common.{
  Bool, true, false, not, ◌&&◌, Option, none, some, [], ◌∷◌, ◌≡◌, refl, ◌∙◌, ap, ◌⊎◌, inl, inr,
  is_empty, arith, Bool-cases, Option-cases, ok, Got, found, not_found,
}
use provider_cloudnative_pg.Barman.Types.{BackupStorage, CnpgBackup, ObjectStore, S3Spec}
use provider_cloudnative_pg.Provider.Types
use provider_cloudnative_pg.Provider.Deletion
use provider_cloudnative_pg.Provider.Deletion.{
  Created, created, already_exists, cleanup_backup, job_complete, is_job_failed, in_progress,
}
use provider_cloudnative_pg.Provider.Deletion.Job.{
  DeletionJob, deletion_job, build_backup_deletion_job,
}
use provider_cloudnative_pg.Provider.Deletion.Lifecycle.{
  World, Released, here, next, run, move, IsSafe, cleanup_backup-leaves_no_data,
}
use provider_cloudnative_pg.Provider.Deletion.Fair.{Sound, Fair, Ready}
use provider_cloudnative_pg.Provider.Deletion.Completes.{round, cleanup_backup-completes}
use provider_cloudnative_pg.Tests.Data.{backup, cnpg_backup}

record Api : Type 0 where
  backup : Option CnpgBackup
  job : Option Types.Job
  -- Whether data of the backup was there before the Job.
  data_left : Bool

abbrev got : {A : Type 0} → Option A → Got A
got none = not_found
got (some a) = found a

abbrev is_finished : Option Types.Job → Bool
is_finished none = false
is_finished (some j) = job_complete j && not (is_job_failed j)

abbrev is_dataless : Option CnpgBackup → Bool
is_dataless none = false
is_dataless (some b) = not (in_progress b.status.phase) && is_empty b.status.backup_id

abbrev has_data : Api → Bool
has_data s = s.data_left && not (is_finished s.job) && not (is_dataless s.backup)

abbrev mark : Option CnpgBackup → Option CnpgBackup
mark none = none
mark (some b) = some (record b { deleting = true })

abbrev new_job : Types.Job
new_job = record { name = "delete-backup-b"; conditions = [] }

abbrev finished_job : Types.Job
finished_job = record {
  name = "delete-backup-b";
  conditions = (record { type_name = "Complete"; status = "True" }) ∷ [];
}

abbrev make : Api → Created × Api
make s = elim s.job [
  | none ↦ (created, record s { job = some new_job })
  | some j ↦ (already_exists, s)
]

abbrev store : ObjectStore
store = record {
  name = "main";
  endpoint_url = "";
  endpoint_ca = none;
  destination_path = "s3://bucket/";
  access_key_id = some (record { name = "keys"; key = "id" });
  secret_access_key = some (record { name = "keys"; key = "secret" });
  region = none;
  wal_compression = "";
  retention_policy = "";
}

abbrev s3 : S3Spec
s3 = record { endpoint_url = ""; bucket = "bucket"; region = ""; credentials_secret = "keys" }

abbrev storage : BackupStorage
storage = record { name = "main"; s3 = some s3 }

abbrev api : Deletion.Client
api = record {
  State = Api;
  get_cnpg_backup = λ s n. got s.backup;
  get_object_store = λ s n. found store;
  backup_storage = λ s n. ok storage;
  get_job = λ s n. got s.job;
  create_job = λ j s. make s;
  delete_cnpg_backup = λ n s. (none, record s { backup = mark s.backup });
  set_controller_reference = λ b j. ok j;
  is_controlled_by = λ j b. true;
  append_options = λ args store. ok ("--cloud-provider" ∷ "aws-s3" ∷ args);
}

-- The Job completes, and a Backup that is marked for deletion goes away.
abbrev keep : Option CnpgBackup → Option CnpgBackup
keep none = none
keep (some b) = elim b.deleting [ true ↦ none | false ↦ some b ]

abbrev finish : Option Types.Job → Option Types.Job
finish none = none
finish (some j) = some finished_job

abbrev tidy : Api → Api
tidy s = record { backup = keep s.backup; job = finish s.job; data_left = has_data s }

and_false : (a b : Bool) → a ≡ false → (a && b) ≡ false
and_false a b h = ground arith

same : {A : Type 0} (o : Option A) (a : A) → got o ≡ found a → o ≡ some a
same none a h = cc
same (some x) a h = cc

absent : {A : Type 0} (o : Option A) → got o ≡ not_found → o ≡ none
absent none h = refl
absent (some x) h = cc

no_id_lem :
    (b : CnpgBackup) (s : Api)
    → got s.backup ≡ found b
    → in_progress b.status.phase ≡ false
    → b.status.backup_id ≡ ""
    → has_data s ≡ false
no_id_lem b s e idle none_given = rw (same s.backup b e, idle, none_given) (ground arith)

job_deleted_lem :
    (job : Types.Job) (s : Api)
    → got s.job ≡ found job
    → true ≡ true
    → is_job_failed job ≡ false
    → job_complete job ≡ true
    → has_data s ≡ false
job_deleted_lem job s e own fine complete = rw (same s.job job e, fine, complete) (ground arith)

data_make : (s : Api) → has_data (make s).1 ≡ has_data s
data_make s = elim (Option-cases s.job) [
  | inl e ↦ rw e (unfold job_complete is_job_failed in refl)
  | inr (j, e) ↦ rw e refl
]

data_mark : (o : Option CnpgBackup) → is_dataless (mark o) ≡ is_dataless o
data_mark none = refl
data_mark (some b) = refl

backup_make : (s : Api) → got (make s).1.backup ≡ got s.backup
backup_make s = elim (Option-cases s.job) [ inl e ↦ rw e refl | inr (j, e) ↦ rw e refl ]

keep-Released :
    (o : Option CnpgBackup)
    → (got (keep o) ≡ not_found)
      ⊎ ((b : CnpgBackup) × (got (keep o) ≡ found b) × (b.deleting ≡ true))
    → (got o ≡ not_found) ⊎ ((b : CnpgBackup) × (got o ≡ found b) × (b.deleting ≡ true))
keep-Released none h = inl refl
keep-Released (some b) h = elim (Bool-cases b.deleting) [
  | inl marked ↦ inr (b, refl, marked)
  | inr kept ↦ rw kept at h
]

released-keep :
    (o : Option CnpgBackup)
    → (got o ≡ not_found) ⊎ ((b : CnpgBackup) × (got o ≡ found b) × (b.deleting ≡ true))
    → got (keep o) ≡ not_found
released-keep none h = refl
released-keep (some b) (inl h) = cc
released-keep (some b) (inr (x, e, marked)) = rw (ap deleting_of e ∙ marked) refl
  where
    deleting_of : Got CnpgBackup → Bool
    deleting_of (found b) = b.deleting
    deleting_of _ = true

kept-keep :
    (o : Option CnpgBackup) (b : CnpgBackup)
    → got o ≡ found b
    → b.deleting ≡ false
    → got (keep o) ≡ found b
kept-keep o b e kept = simp (same o b e, kept)

-- The native retention removes the data, and the CloudNativePG Backup with it.
abbrev expire : Api → Api
expire s = record { backup = none; job = s.job; data_left = false }

world : World api backup
world = record {
  Move = λ s t. (t ≡ tidy s) ⊎ (t ≡ expire s);
  has_data = has_data;
  no_id = no_id_lem;
  job_deleted = job_deleted_lem;
  data-create = λ j s. data_make s;
  data-delete = λ s. rw (data_mark s.backup) refl;
  backup-create = λ j s. backup_make s;
  move-Released = λ s t m r. elim m [
    | inl e ↦ inl (keep-Released s.backup (rw e at r))
    | inr e ↦ inr (rw e refl)
  ];
  move-data = λ s t m r h. elim m [ inl e ↦ rw (e, h) refl | inr e ↦ rw e refl ];
}

-- The Backup of the tests, with data and no Job.
abbrev start : Api
start = record { backup = some cnpg_backup; job = none; data_left = true }

start-IsSafe : IsSafe api backup world start
start-IsSafe (inl h) = cc
start-IsSafe (inr (b, e, marked)) = cc (ap deleting_of e ∙ marked)
  where
    deleting_of : Got CnpgBackup → Bool
    deleting_of (found b) = b.deleting
    deleting_of _ = false

ended : Api
ended = (cleanup_backup api backup (tidy (cleanup_backup api backup start).1)).1

cleanup_backup-leaves_no_data_example :
    IsSafe api backup world ended
    × ((cleanup_backup api backup ended).0 ≡ ok true → has_data ended ≡ false)
unfolding ended world
cleanup_backup-leaves_no_data_example =
    cleanup_backup-leaves_no_data api backup world refl start-IsSafe (
      next (next (next here (run start)) (move (inl refl)))
        (run (tidy (cleanup_backup api backup start).1)))

Sound-tidy :
    (s : Api) (job : Types.Job)
    → Sound api backup s job
    → (j : Types.Job) × Sound api backup (tidy s) j × (job_complete j ≡ true)
Sound-tidy s job sound = (
  finished_job,
  record {
    there = rw (same s.job job sound.there) refl;
    owned = refl;
    fine = unfold is_job_failed in refl;
  },
  unfold job_complete in refl,
)

no_job_tidy : (s : Api) → got s.job ≡ not_found → got (finish s.job) ≡ not_found
no_job_tidy s e = rw (absent s.job e) refl

delete_lem :
    (s : Api) (b : CnpgBackup)
    → got s.backup ≡ found b
    → Released api backup (record s { backup = mark s.backup })
delete_lem s b e = inr (record b { deleting = true }, rw (same s.backup b e) refl, refl)

create_lem : (s : Api) → got s.job ≡ not_found → (j : Types.Job) × Sound api backup (make s).1 j
create_lem s e = (
  new_job,
  record { there = rw (absent s.job e) refl; owned = refl; fine = unfold is_job_failed in refl },
)

fair : Fair api backup
fair = record {
  tidy = tidy;
  tidy-job = Sound-tidy;
  tidy-no_job = no_job_tidy;
  tidy-Released = λ s r. released-keep s.backup r;
  tidy-backup = λ s b e kept. kept-keep s.backup b e kept;
  tidy-store = λ s n. refl;
  tidy-storage = λ s n. refl;
  delete-Released = λ s b e kept. delete_lem s b e;
  job-delete = λ s n. refl;
  create-Sound = λ built owned s e named missing. create_lem s missing;
  backup-create = λ j s n. backup_make s;
  store-create = λ j s n. refl;
  storage-create = λ j s n. refl;
}

abbrev deletes : DeletionJob
deletes =
    deletion_job backup store s3 (record { name = "keys"; key = "id" })
      (record { name = "keys"; key = "secret" })
      ("--cloud-provider" ∷ "aws-s3" ∷ "--backup-id" ∷ "id" ∷ "s3://bucket/" ∷ "db" ∷ [])

deletes_built :
    build_backup_deletion_job api.append_options backup cnpg_backup store (some s3) ≡ ok deletes
unfolding build_backup_deletion_job
deletes_built = refl

start-Ready : Ready api backup start
start-Ready = record {
  job = inl refl;
  backup_there = inr (
    cnpg_backup,
    refl,
    inr (
      refl,
      inr (
        refl,
        record {
          store = store;
          storage = storage;
          s3 = s3;
          built = deletes;
          owned = deletes;
          has_store = refl;
          has_storage = refl;
          is_s3 = refl;
          builds = deletes_built;
          owns = refl;
        },
      ),
    ),
  );
}

cleanup_backup-completes_example :
    (cleanup_backup api backup (round api backup fair (round api backup fair start))).0 ≡ ok true
cleanup_backup-completes_example = cleanup_backup-completes api backup fair start start-Ready
