-- ===== src/Api/Handlers/Config.antt =====
-- What a request to change a VM's configuration changes.
use matrisea.Common.{
  ℕ, Str, text, str_eq, eq_of_str_eq, true, ◌≡◌, refl, ◌∙◌, ap, Option, none, some, [], ◌∷◌, ◌++◌,
  Result, ok, err, panic, ◌>>=◌, arith, if◌then◌else◌, Bool-cases, inl, inr,
}
use matrisea.Common.Steps.{bind-inv}
use matrisea.Kvstore.{put_container_value}
use matrisea.Kvstore.Bolt.{IsLawful}
use matrisea.Kvstore.Values.{stored, stored-put}
use matrisea.Vmm.Host.{Vmm, Host, World, on_db, config_key_cmdline}
use matrisea.Vmm.Find.{is_managed_running_container}
use matrisea.Vmm.Find.Guards.{AreQueries, ReadsOnly-is_managed_running_container}
use matrisea.Vmm.Transfer.{container_update_config}
use matrisea.Api.Handlers.{
  message_body, Response, message_ok, is_cmdline, config_answer, bad_request, update_vm_config,
}
use matrisea.Api.Env.{cf_prefix}

abbrev status : Result Response → ℕ
status (ok r) = r.status
status _ = 0

module _ (H : Host) (v : Vmm) (name : Str) (w : World H) where
  module _ (Q : AreQueries H.engine) (L : IsLawful H.database) where
    updated :
        (container_name value : Str)
        → (container_update_config H v container_name config_key_cmdline value w).0 ≡ ok tt
        → (d k : Str)
        → stored H.database d k
            (container_update_config H v container_name config_key_cmdline value w).1.db
          ≡ (if str_eq container_name d
              then if str_eq config_key_cmdline k then some value else stored H.database d k w.db
              else stored H.database d k w.db)
    unfolding container_update_config
    updated container_name value h d k =
        let guard = is_managed_running_container H v container_name in
        let kvs = record { key = config_key_cmdline; value = value } ∷ [] in
        let put = λ (u : World H). on_db H (put_container_value H.database container_name kvs) u in
        let (_, _, e) = bind-inv guard (λ _. put) w tt h in
        let same : (guard >>= λ _. put) w ≡ put w =
          e ∙ ap put ((ReadsOnly-is_managed_running_container H v Q container_name).same w) in
        rw same (stored-put H.database L container_name kvs w.db (rw same at h) d k)

    answer-ok : (r : Result (Unit {0})) → config_answer H v r ≡ ok message_ok → r ≡ ok tt
    answer-ok (ok a) h = refl
    answer-ok (err e) h = absurd (cc)
    answer-ok panic h = absurd (cc)

    bad_is_not_ok : ¬ (
        ◌≡◌ {A = Result Response}
          (ok (bad_request (message_body (text "invalid config key"))))
          (ok message_ok))
    bad_is_not_ok h = let statuses : ◌≡◌ {A = ℕ} 400 200 = ap status h in omega arith

    is_cmdline-some : (key : Option Str) → is_cmdline key ≡ true → key ≡ some config_key_cmdline
    is_cmdline-some none h = absurd (cc)
    is_cmdline-some (some key) h = ap some (eq_of_str_eq key config_key_cmdline h)

    -- When updateVMConfig answers "ok", with an engine whose queries change nothing and a lawful
    -- database, the key was cmdline, the VM's stored command line is the value sent, and every
    -- other key of every container has the value that it had.
    pub update_vm_config-stored :
        (key : Option Str) (value : Str)
        → (update_vm_config H v name key value w).0 ≡ ok message_ok
        → (key ≡ some config_key_cmdline)
          × ((d k : Str)
              → stored H.database d k (update_vm_config H v name key value w).1.db ≡ (
                  if str_eq (cf_prefix ++ name) d
                  then if str_eq config_key_cmdline k
                    then some value
                    else stored H.database d k w.db
                  else stored H.database d k w.db))
    unfolding update_vm_config
    update_vm_config-stored key value h = elim (Bool-cases (is_cmdline key)) [
      | inl set ↦ (
        is_cmdline-some key set,
        rw set (updated (cf_prefix ++ name) value (answer-ok _ (rw set at h))),
      )
      | inr other ↦ absurd (bad_is_not_ok (rw other at h))
    ]
