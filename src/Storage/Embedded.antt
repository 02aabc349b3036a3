-- ===== src/Storage/Embedded.antt =====
-- pkg/storage/etcd.go: an etcd server inside the process, with a directory of its own. The operating
-- system and the etcd server are third-party code: `Os` has the calls that the program makes, and
-- `OsLaws` what they document of the directories.
pub mod Directories
use gokube_workshop_day.Prelude.{
  ℕ, ◌==◌, ◌≡◌, Bool, true, false, Option, none, some, List, [], ◌∷◌, Text, same, if◌then◌else◌,
  keep, not,
}
use gokube_workshop_day.Go.{Result, ok, err, Go, pure, ◌>>=◌, ◌>>◌, on_result}

-- The fields of `embed.Config` that the program sets to its own values. The URLs have the scheme http
-- and the host 127.0.0.1; a port stands for its URL.
pub record Config : Type 0 where
  pub dir : Text
  pub listen_peer_port : ℕ
  pub listen_client_port : ℕ

-- A call that returns `false` or `none` returned an error.
pub record Os (W Etcd : Type 0) : Type 0 where
  pub mkdir_temp : Go W (Option Text)
  pub abs : Text → Go W (Option Text)
  pub listen : Go W (Option ℕ)  -- the port of a listener at 127.0.0.1:0
  pub close_listener : ℕ → Go W Bool
  pub start_etcd : Config → Go W (Option Etcd)
  pub config : Etcd → Config
  pub ready : Etcd → Go W Bool  -- `false` where the ten seconds pass first
  pub stop_server : Etcd → Go W (Unit {0})
  pub close_etcd : Etcd → Go W (Unit {0})
  pub remove_all : Text → Go W Bool

module _ {W Etcd : Type 0} (os : Os W Etcd) where
  -- `createTempDir`
  unfoldable pub create_temp_dir : Go W (Result Text)
  create_temp_dir = do
    temp_dir ← os.mkdir_temp
    elim temp_dir [
      | none ↦ pure (err [])
      | some d ↦ (do absolute ← os.abs d; pure (elim absolute [ none ↦ err [] | some p ↦ ok p ]))
    ]

  -- `PickAvailableRandomPort`
  unfoldable pub pick_available_random_port : Go W (Result ℕ)
  pick_available_random_port = do
    ln ← os.listen
    elim ln [
      | none ↦ pure (err [])
      | some port ↦ (do closed ← os.close_listener port; pure (if closed then ok port else err []))
    ]

  -- `if port == 0 { port, err = PickAvailableRandomPort() … }`
  unfoldable pub chosen_port : ℕ → Go W (Result ℕ)
  unfolding pick_available_random_port
  chosen_port port = if port == 0 then pick_available_random_port else pure (ok port)

  -- The end of `StartEmbeddedEtcdWithPort`, from `embed.StartEtcd` on.
  unfoldable pub start_configured : Config → Go W (Result (Etcd × ℕ))
  start_configured cfg = do
    e ← os.start_etcd cfg
    elim e [
      | none ↦ pure (err [])
      | some server ↦ (do
        is_ready ← os.ready server
        if is_ready
            then pure (ok (server, cfg.listen_client_port))
            else (do os.stop_server server; pure (err [])))
    ]

  -- `StartEmbeddedEtcdWithPort`
  unfoldable pub start_embedded_etcd_with_port : ℕ → ℕ → Go W (Result (Etcd × ℕ))
  unfolding create_temp_dir chosen_port start_configured
  start_embedded_etcd_with_port peer_port client_port = do
    made ← create_temp_dir
    on_result made
        (λ dir. do
          peer ← chosen_port peer_port
          on_result peer
              (λ p. do
                client ← chosen_port client_port
                on_result client
                    (λ q.
                      start_configured
                        (record { dir = dir; listen_peer_port = p; listen_client_port = q }))
                    (λ e. pure (err e)))
              (λ e. pure (err e)))
        (λ e. pure (err e))

  -- `StartEmbeddedEtcd`
  unfoldable pub start_embedded_etcd : Go W (Result (Etcd × ℕ))
  unfolding start_embedded_etcd_with_port
  start_embedded_etcd = start_embedded_etcd_with_port 0 0

  -- `StopEmbeddedEtcd`; whether the removal succeeded is not looked at.
  unfoldable pub stop_embedded_etcd : Etcd → Go W (Unit {0})
  stop_embedded_etcd e = do os.close_etcd e; os.remove_all (os.config e).dir; pure tt

-- The directories that exist for the program, by their absolute paths.
pub record OsLaws {W Etcd : Type 0} (os : Os W Etcd) : Type 0 where
  pub dirs : W → List Text
  pub absolute : Text → Text
  pub mkdir_temp_none : (w : W) → (os.mkdir_temp w).0 ≡ none → dirs (os.mkdir_temp w).1 ≡ dirs w
  pub mkdir_temp_some :
      (w : W) (d : Text)
      → (os.mkdir_temp w).0 ≡ some d
      → (dirs (os.mkdir_temp w).1 ≡ absolute d ∷ dirs w)
        × (keep (λ p. not (same p (absolute d))) (dirs w) ≡ dirs w)
  pub abs_law : (d p : Text) (w : W) → (os.abs d w).0 ≡ some p → p ≡ absolute d
  pub config_law :
      (cfg : Config) (w : W) (e : Etcd) → (os.start_etcd cfg w).0 ≡ some e → os.config e ≡ cfg
  pub remove_all_law :
      (p : Text) (w : W)
      → (os.remove_all p w).0 ≡ true
      → dirs (os.remove_all p w).1 ≡ keep (λ q. not (same q p)) (dirs w)
  pub abs_dirs : (d : Text) (w : W) → dirs (os.abs d w).1 ≡ dirs w
  pub listen_dirs : (w : W) → dirs (os.listen w).1 ≡ dirs w
  pub close_listener_dirs : (port : ℕ) (w : W) → dirs (os.close_listener port w).1 ≡ dirs w
  pub start_etcd_dirs : (cfg : Config) (w : W) → dirs (os.start_etcd cfg w).1 ≡ dirs w
  pub ready_dirs : (e : Etcd) (w : W) → dirs (os.ready e w).1 ≡ dirs w
  pub stop_server_dirs : (e : Etcd) (w : W) → dirs (os.stop_server e w).1 ≡ dirs w
  pub close_etcd_dirs : (e : Etcd) (w : W) → dirs (os.close_etcd e w).1 ≡ dirs w
