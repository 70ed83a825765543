-- ===== src/Agent/Ssh.antt =====
-- pkg/gitops/gitops_ssh.go: the keys and the configuration of ssh for the repositories. The environment
-- variables and the outcomes of the writes are inputs.
use choerodon_cluster_agent.Base.{
  ℕ, ◌≡◌, ◌<◌, ◌≤◌, refl, Bool, true, false, ◌||◌, Option, none, some, List, [], ◌∷◌, ◌++◌, arith,
  ◌==◌, nat_eq, list_eq, if◌then◌else◌, length,
}
use choerodon_cluster_agent.Base.Dict.{Dict, lookup, insert}
use choerodon_cluster_agent.Base.Text.{Text, codes}
use choerodon_cluster_agent.Agent.Loops.{Env}

-- `strings.Split` at one byte: the first part, and the others.
unfoldable pub split_first : ℕ → Text → Text × List Text
split_first b [] = ([], [])
split_first b (c ∷ s) =
    let rest = split_first b s in if c == b then ([], rest.0 ∷ rest.1) else (c ∷ rest.0, rest.1)

unfoldable pub split_all : ℕ → Text → List Text
unfolding split_first
split_all b s = (split_first b s).0 ∷ (split_first b s).1

-- `sshProxyMap`
pub record Proxy : Type 0 where
  pub schema : Text
  pub username : Text
  pub password : Text
  pub host : Text

-- `SshRewriteUrlMap` and `sshProxyMap`, which may be empty.
pub record SshMaps : Type 0 where
  pub rewrites : Dict Text Text
  pub proxy : Option Proxy

-- The loop of `init`: an override that is missing is out of range, a panic.
unfoldable pub rewrite_each : List Text → List Text → Dict Text Text → Option (Dict Text Text)
rewrite_each [] overrides d = some d
rewrite_each (o ∷ origins) [] d = none
rewrite_each (o ∷ origins) (v ∷ overrides) d = rewrite_each origins overrides (insert o v d)

-- `init`, with the proxy as it is parsed, unless it is not set. The test of the two lengths compares one
-- with itself.
unfoldable pub init_maps : Text → Text → Option Proxy → Option SshMaps
unfolding split_all rewrite_each
init_maps origin override proxy =
    if origin == [] || override == []
    then some (record { rewrites = []; proxy = proxy })
    else elim (rewrite_each (split_all b',' origin) (split_all b',' override) []) [
      | none ↦ none
      | some d ↦ some (record { rewrites = d; proxy = none })
    ]

abbrev line : Text → Text
line s = s ++ 10 ∷ []

-- The lines of `config` about the host: the part behind a second colon is left out.
unfoldable pub host_lines : Text → Text
unfolding split_first
host_lines host =
    let (name, ports) = split_first b':' host in
    elim ports [
      | [] ↦ line (codes "  HostName " ++ host)
      | port ∷ _ ↦ line (codes "  HostName " ++ name) ++ line (codes "  Port " ++ port)
    ]

unfoldable pub proxy_line : SshMaps → Text
proxy_line m = elim m.proxy [
  | none ↦ []
  | some p ↦ elim m.rewrites [
    | [] ↦ line (
        codes "  ProxyCommand ncat --proxy-type "
        ++ p.schema
        ++ codes " --proxy-auth "
        ++ p.username
        ++ codes ":"
        ++ p.password
        ++ codes " --proxy "
        ++ p.host
        ++ codes " %h %p")
    | _ ↦ []
  ]
]

abbrev key_file : Text → Text
key_file namespace = codes "/ssh-keys/rsa-" ++ namespace

-- `config`
unfoldable pub config : SshMaps → Text → Text → Text
unfolding host_lines proxy_line
config m host namespace =
    let rewritten : Text = elim (lookup host m.rewrites) [ none ↦ host | some url ↦ url ] in
    line (codes "Host " ++ namespace)
    ++ host_lines rewritten
    ++ line (codes "  StrictHostKeyChecking no")
    ++ line (codes "  UserKnownHostsFile /dev/null")
    ++ line (codes "  IdentityFile " ++ key_file namespace)
    ++ line (codes "  LogLevel error")
    ++ proxy_line m

-- The loop of `PrepareSSHKeys` with `writeSSHkey`: the files written, and the configuration unless a write
-- fails. `writes` says whether a file can be written; what a failed write leaves of it is left out.
unfoldable pub write_keys :
    (Text → Bool) → SshMaps → Text → List Env → Text → Dict Text Text → Dict Text Text × Option Text
unfolding config
write_keys writes m host [] ssh_config files = (files, some ssh_config)
write_keys writes m host (e ∷ envs) ssh_config files =
    let rest =
      write_keys writes m host envs (ssh_config ++ config m host e.namespace)
        (insert (key_file e.namespace) e.git_rsa_key files) in
    if writes (key_file e.namespace) then rest else (files, none)

-- `PrepareSSHKeys`: the files, and whether there is no error.
unfoldable pub prepare_ssh_keys :
    (Text → Bool) → SshMaps → Text → List Env → Dict Text Text → Dict Text Text × Bool
unfolding write_keys
prepare_ssh_keys writes m host envs files =
    let (written, content) = write_keys writes m host envs [] files in
    let path = codes "/etc/ssh/ssh_config" in
    elim content [
      | none ↦ (written, false)
      | some text ↦ if writes path then (insert path text written, true) else (written, false)
    ]

-- `init` panics where there are fewer overrides than origins.
rewrite_each-short :
    (origins overrides : List Text) (d : Dict Text Text)
    → length overrides < length origins
    → rewrite_each origins overrides d ≡ none
unfolding rewrite_each
rewrite_each-short [] overrides d h = absurd (omega arith)
rewrite_each-short (o ∷ origins) [] d h = refl
rewrite_each-short (o ∷ origins) (v ∷ overrides) d h =
    rewrite_each-short origins overrides (insert o v d) (omega arith)

-- With enough overrides it does not.
rewrite_each-total :
    (origins overrides : List Text) (d : Dict Text Text)
    → length origins ≤ length overrides
    → (d' : Dict Text Text) × (rewrite_each origins overrides d ≡ some d')
unfolding rewrite_each
rewrite_each-total [] overrides d h = (d, refl)
rewrite_each-total (o ∷ origins) [] d h = absurd (omega arith)
rewrite_each-total (o ∷ origins) (v ∷ overrides) d h =
    rewrite_each-total origins overrides (insert o v d) (omega arith)
