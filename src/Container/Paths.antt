-- ===== src/Container/Paths.antt =====
-- The path builders of lib/containerParse.ts.
use vyos_client.Base.{String, List, ◌∷◌}

unfoldable pub container_path : List String → List String
container_path rest = "container" ∷ rest

unfoldable pub container_name_path : String → List String → List String
unfolding container_path
container_name_path name rest = container_path ("name" ∷ name ∷ rest)

unfoldable pub container_sysctl_path : String → String → List String → List String
unfolding container_name_path
container_sysctl_path name parameter rest =
    container_name_path name ("sysctl" ∷ "parameter" ∷ parameter ∷ rest)

unfoldable pub container_device_path : String → String → List String → List String
unfolding container_name_path
container_device_path name id rest = container_name_path name ("device" ∷ id ∷ rest)

unfoldable pub container_environment_path : String → String → List String → List String
unfolding container_name_path
container_environment_path name var_name rest =
    container_name_path name ("environment" ∷ var_name ∷ rest)

unfoldable pub container_label_path : String → String → List String → List String
unfolding container_name_path
container_label_path name label_name rest = container_name_path name ("label" ∷ label_name ∷ rest)

unfoldable pub container_network_attachment_path : String → String → List String → List String
unfolding container_name_path
container_network_attachment_path name network_name rest =
    container_name_path name ("network" ∷ network_name ∷ rest)

unfoldable pub container_port_path : String → String → List String → List String
unfolding container_name_path
container_port_path name id rest = container_name_path name ("port" ∷ id ∷ rest)

unfoldable pub container_tmpfs_path : String → String → List String → List String
unfolding container_name_path
container_tmpfs_path name id rest = container_name_path name ("tmpfs" ∷ id ∷ rest)

unfoldable pub container_volume_path : String → String → List String → List String
unfolding container_name_path
container_volume_path name id rest = container_name_path name ("volume" ∷ id ∷ rest)

unfoldable pub container_health_check_path : String → List String → List String
unfolding container_name_path
container_health_check_path name rest = container_name_path name ("health-check" ∷ rest)

unfoldable pub container_network_path : String → List String → List String
unfolding container_path
container_network_path name rest = container_path ("network" ∷ name ∷ rest)

unfoldable pub container_registry_path : String → List String → List String
unfolding container_path
container_registry_path name rest = container_path ("registry" ∷ name ∷ rest)
