-- ===== src/Bootstrap/Remote.antt =====
-- `BootstrapRemote` of kubeBootstrap.go, from the kubeconfig of a server to the hand-over to flux.
use becloudless.Prelude.{
  String, Bool, true, false, ◌==◌, ◌&◌, Option, none, some, List, [], ◌∷◌, if◌then◌else◌, ok, err,
  or_fail, ◌>>=◌, split_on,
}
use becloudless.Json.{Value, str, obj, arr, Fields, Items, nil, cons, get, set, as_obj, as_arr}
use becloudless.Bootstrap.{
  Docs, Result, kubeconfig_malformed, marshal_failed, write_failed, command_failed, no_cluster,
}
use becloudless.Bootstrap.Commands.{Call, Answers, Run, Done, ◌then◌}
use becloudless.Bootstrap.Plan.{RenderedApp}
use becloudless.Bootstrap.Owned.{AppsHelmRelease}
use becloudless.Bootstrap.Apply.{read_apps_helm_release, apply_rendered_apps, apply_bcl}
use becloudless.Bootstrap.Render.{Charts, render_group_apps}

abbrev has_colon : List String → Bool
has_colon [] = false
has_colon (s ∷ []) = false
has_colon (s ∷ t ∷ list) = true

-- `net.JoinHostPort(host, port)`
unfoldable pub join_host_port : String → String → String
unfolding split_on
join_host_port host port =
    if has_colon (split_on ":" host) then "[" & host & "]:" & port else host & ":" & port

abbrev pub server_url : String → String
unfolding join_host_port
server_url host = "https://" & join_host_port host "8443"

-- the body of the loop over the clusters: what has no map `cluster` is passed over
unfoldable pub rewrite_cluster : String → Value → Value
unfolding set
rewrite_cluster url (obj entry) = obj (elim (as_obj (get "cluster" entry)) [
  | none ↦ entry
  | some cluster ↦ set "cluster" (obj (set "server" (str url) cluster)) entry
])
rewrite_cluster url entry = entry

unfoldable pub rewrite_clusters : String → Items → Items
unfolding rewrite_cluster
rewrite_clusters url nil = nil
rewrite_clusters url (cons entry list) =
    cons (rewrite_cluster url entry) (rewrite_clusters url list)

-- `config` after the loop
unfoldable pub with_server : String → Fields → Fields
unfolding rewrite_clusters set
with_server url config = elim (as_arr (get "clusters" config)) [
  | none ↦ config
  | some clusters ↦ set "clusters" (arr (rewrite_clusters url clusters)) config
]

-- What the command reads and writes outside of the cluster.
pub record Files : Type 0 where
  pub parse_yaml : String → Option Fields
  pub marshal : Fields → Option String
  pub read_file : String → Option String
  pub decode_release : String → Option AppsHelmRelease
  pub writable : String → Bool
  pub tmp_dir : String
  -- the output of a program on the server
  pub on_server : List String → Option String

-- `kube.Context`, of what the command uses
pub record Context : Type 0 where
  pub cluster_path : String
  pub kube_config : String

module _ (files : Files) where
  -- `rewriteKubeconfigServer`
  unfoldable pub rewrite_kubeconfig_server : String → String → Result String
  unfolding with_server
  rewrite_kubeconfig_server content server_host =
      or_fail kubeconfig_malformed (files.parse_yaml content) >>= λ config.
      or_fail marshal_failed (files.marshal (with_server (server_url server_host) config))

  -- `fetchKubeconfig`: what it writes to the file
  unfoldable pub fetch_kubeconfig : String → String → Result String
  unfolding rewrite_kubeconfig_server
  fetch_kubeconfig destination host =
      or_fail (command_failed ("sudo" ∷ "cat" ∷ "/etc/kubernetes/admin.conf" ∷ []))
        (files.on_server ("sudo" ∷ "cat" ∷ "/etc/kubernetes/admin.conf" ∷ []))
      >>= λ kubeconfig. rewrite_kubeconfig_server (kubeconfig & "\n") host >>= λ content.
          (if files.writable destination then ok content else err (write_failed destination))

  module _ {Chart : Type 0} (charts : Charts Chart) (kube_version group host : String)
      (answers : Answers) where
    abbrev pub bootstrap_rendered :
        Context → Result (List RenderedApp × Docs) → List Call → Run Done
    bootstrap_rendered ctx (err e) calls = (err e, calls)
    bootstrap_rendered ctx (ok (apps, git_repositories)) calls =
        apply_rendered_apps answers files.marshal files.writable files.tmp_dir apps calls
        then λ ended more.
            apply_bcl answers files.marshal ctx.cluster_path
              (read_apps_helm_release files.read_file files.decode_release ctx.cluster_path)
              git_repositories more

    -- `BootstrapRemote` with the context that it reads
    unfoldable pub bootstrap_remote : Context → List Call → Run Done
    unfolding fetch_kubeconfig apply_rendered_apps apply_bcl read_apps_helm_release
        render_group_apps
    bootstrap_remote ctx calls =
        if ctx.kube_config == ""
        then (err no_cluster, calls)
        else bootstrap_rendered ctx
            (fetch_kubeconfig ctx.kube_config host >>= λ content.
              render_group_apps charts kube_version
                (read_apps_helm_release files.read_file files.decode_release ctx.cluster_path)
                group)
            calls
