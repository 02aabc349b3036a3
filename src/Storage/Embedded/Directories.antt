-- ===== src/Storage/Embedded/Directories.antt =====
-- The directory of the embedded etcd: made by the start, removed by the stop.
use gokube_workshop_day.Prelude.{
  ℕ, ◌≡◌, ◌≢◌, inl, inr, true, some, ◌∷◌, Text, same_refl, keep, arith, Bool-cases, Option-cases,
  ◌==◌, ==_iff,
}
use gokube_workshop_day.Go.{ok, Result-cases}
use gokube_workshop_day.Storage.Embedded.{
  Config, Os, OsLaws, create_temp_dir, pick_available_random_port, chosen_port, start_configured,
  start_embedded_etcd_with_port, stop_embedded_etcd,
}

module _ {W Etcd : Type 0} {os : Os W Etcd} (laws : OsLaws os) where
  chosen_port_dirs : (port : ℕ) (w : W) → laws.dirs (chosen_port os port w).1 ≡ laws.dirs w
  unfolding chosen_port pick_available_random_port
  chosen_port_dirs port w = elim (Option-cases (os.listen w).0) [
    | inl e ↦ ground (arith, laws.listen_dirs w)
    | inr (p, e) ↦ ground (arith, laws.listen_dirs w, laws.close_listener_dirs p (os.listen w).1)
  ]

  given_port : (port : ℕ) (w : W) → port ≢ 0 → chosen_port os port w ≡ (ok port, w)
  unfolding chosen_port
  given_port port w h = elim (Bool-cases (port == 0)) [
    | inl e ↦ absurd (h ((==_iff port 0).0 e))
    | inr e ↦ ground (arith, e)
  ]

  create_temp_dir_dirs :
      (w : W) (d : Text)
      → (os.mkdir_temp w).0 ≡ some d
      → laws.dirs (create_temp_dir os w).1 ≡ laws.absolute d ∷ laws.dirs w
  unfolding create_temp_dir
  create_temp_dir_dirs w d e =
      ground (arith, laws.mkdir_temp_some w d e, laws.abs_dirs d (os.mkdir_temp w).1)

  created_temp_dir :
      (w : W) (dir : Text)
      → (create_temp_dir os w).0 ≡ ok dir
      → (d : Text) × ((os.mkdir_temp w).0 ≡ some d) × (dir ≡ laws.absolute d)
  unfolding create_temp_dir
  created_temp_dir w dir h = elim (Option-cases (os.mkdir_temp w).0) [
    | inl e ↦ absurd (ground (arith, e, h))
    | inr (d, e) ↦ elim (Option-cases (os.abs d (os.mkdir_temp w).1).0) [
      | inl e' ↦ absurd (ground (arith, e, e', h))
      | inr (p, e') ↦ (d, e, ground (arith, e, e', h, laws.abs_law d p (os.mkdir_temp w).1))
    ]
  ]

  start_configured_dirs :
      (cfg : Config) (w : W) → laws.dirs (start_configured os cfg w).1 ≡ laws.dirs w
  unfolding start_configured
  start_configured_dirs cfg w = elim (Option-cases (os.start_etcd cfg w).0) [
    | inl e ↦ ground (arith, laws.start_etcd_dirs cfg w)
    | inr (s, e) ↦ ground (
      arith,
      laws.start_etcd_dirs cfg w,
      laws.ready_dirs s (os.start_etcd cfg w).1,
      laws.stop_server_dirs s (os.ready s (os.start_etcd cfg w).1).1,
    )
  ]

  started_configured :
      (cfg : Config) (w : W) (e : Etcd) (port : ℕ)
      → (start_configured os cfg w).0 ≡ ok (e, port)
      → (os.config e ≡ cfg) × (port ≡ cfg.listen_client_port)
  unfolding start_configured
  started_configured cfg w e port h = elim (Option-cases (os.start_etcd cfg w).0) [
    | inl q ↦ absurd (ground (arith, q, h))
    | inr (s, q) ↦ ground (arith, q, h, laws.config_law cfg w s q)
  ]

  -- Once its directory is made, `StartEmbeddedEtcdWithPort` leaves it there, whether it returns a
  -- server or an error.
  pub start_leaves_directory :
      (peer_port client_port : ℕ) (w : W) (d : Text)
      → (os.mkdir_temp w).0 ≡ some d
      → laws.dirs (start_embedded_etcd_with_port os peer_port client_port w).1
        ≡ laws.absolute d ∷ laws.dirs w
  unfolding start_embedded_etcd_with_port
  start_leaves_directory peer client w d made =
      let w1 = (create_temp_dir os w).1 in
      let w2 = (chosen_port os peer w1).1 in
      let w3 = (chosen_port os client w2).1 in
      let h1 = create_temp_dir_dirs w d made in
      let h2 = chosen_port_dirs peer w1 in
      let h3 = chosen_port_dirs client w2 in
      elim (Result-cases (create_temp_dir os w).0) [
        | inr (e, q) ↦ ground (arith, q, h1)
        | inl (dir, q) ↦ elim (Result-cases (chosen_port os peer w1).0) [
          | inr (e, q') ↦ ground (arith, q, q', h1, h2)
          | inl (p, q') ↦ elim (Result-cases (chosen_port os client w2).0) [
            | inr (e, q'') ↦ ground (arith, q, q', q'', h1, h2, h3)
            | inl (p', q'') ↦ ground (
              arith,
              q,
              q',
              q'',
              h1,
              h2,
              h3,
              start_configured_dirs
                  (record { dir = dir; listen_peer_port = p; listen_client_port = p' }) w3,
            )
          ]
        ]
      ]

  -- A started server has the directory that was made and the client port that is returned, which is
  -- the port that was asked for, if that was not 0.
  pub started_as_asked :
      (peer_port client_port : ℕ) (w : W) (e : Etcd) (port : ℕ)
      → (start_embedded_etcd_with_port os peer_port client_port w).0 ≡ ok (e, port)
      → ((create_temp_dir os w).0 ≡ ok (os.config e).dir)
        × ((os.config e).listen_client_port ≡ port)
        × (client_port ≢ 0 → port ≡ client_port)
        × (peer_port ≢ 0 → (os.config e).listen_peer_port ≡ peer_port)
  unfolding start_embedded_etcd_with_port
  started_as_asked peer client w e port h =
      let w1 = (create_temp_dir os w).1 in
      let w2 = (chosen_port os peer w1).1 in
      let w3 = (chosen_port os client w2).1 in
      elim (Result-cases (create_temp_dir os w).0) [
        | inr (x, q) ↦ absurd (ground (arith, q, h))
        | inl (dir, q) ↦ elim (Result-cases (chosen_port os peer w1).0) [
          | inr (x, q') ↦ absurd (ground (arith, q, q', h))
          | inl (p, q') ↦ elim (Result-cases (chosen_port os client w2).0) [
            | inr (x, q'') ↦ absurd (ground (arith, q, q', q'', h))
            | inl (p', q'') ↦
                let cfg : Config = record {
                  dir = dir;
                  listen_peer_port = p;
                  listen_client_port = p';
                } in
                let got = started_configured cfg w3 e port (ground (arith, q, q', q'', h)) in
                (
                  ground (arith, q, got),
                  ground (arith, got),
                  λ n. ground (arith, got, q'', given_port client w2 n),
                  λ n. ground (arith, got, q', given_port peer w1 n),
                )
          ]
        ]
      ]

  -- A start that succeeds and a later stop that can remove leave the directories as they were, if
  -- nothing between them has made or removed one.
  pub start-stop :
      (peer_port client_port : ℕ) (w w' : W) (e : Etcd) (port : ℕ)
      → (start_embedded_etcd_with_port os peer_port client_port w).0 ≡ ok (e, port)
      → laws.dirs w' ≡ laws.dirs (start_embedded_etcd_with_port os peer_port client_port w).1
      → (os.remove_all (os.config e).dir (os.close_etcd e w').1).0 ≡ true
      → laws.dirs (stop_embedded_etcd os e w').1 ≡ laws.dirs w
  unfolding stop_embedded_etcd keep
  start-stop peer client w w' e port h kept removed =
      let created = (started_as_asked peer client w e port h).0 in
      let (d, made, named) = created_temp_dir w (os.config e).dir created in
      ground (
        arith,
        named,
        kept,
        start_leaves_directory peer client w d made,
        laws.mkdir_temp_some w d made,
        laws.close_etcd_dirs e w',
        laws.remove_all_law (os.config e).dir (os.close_etcd e w').1 removed,
        same_refl (laws.absolute d),
      )
