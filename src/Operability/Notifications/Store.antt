-- ===== src/Operability/Notifications/Store.antt =====
-- The table of jobs as its primary key reads it.
use nexus_rag.Prelude.{◌≡◌, String, eq_iff, some, List, [], ◌∷◌, arith}
use nexus_rag.Operability.Notifications.{NotificationJob, find_job, store_job}

-- A row that is found has the key.
pub find_job-id :
    (k : String) (js : List NotificationJob) (j : NotificationJob)
    → find_job k js ≡ some j
    → k ≡ j.id
unfolding find_job
find_job-id k [] j e = ground arith
find_job-id k (i ∷ js) j e = ground (arith, eq_iff k i.id, find_job-id k js j)

-- Writing a row back that is there makes it the row of its key.
pub find-store :
    (k : String) (js : List NotificationJob) (j j' : NotificationJob)
    → find_job k js ≡ some j
    → j'.id ≡ k
    → find_job k (store_job j' js) ≡ some j'
unfolding find_job store_job
find-store k [] j j' e q = ground arith
find-store k (i ∷ js) j j' e q =
    ground (arith, eq_iff k i.id, eq_iff j'.id i.id, eq_iff k j'.id, find-store k js j j')
