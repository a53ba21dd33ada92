-- ===== src/Client/Calls/Auth.antt =====
-- Which calls of frontend/src/api/client.ts are under /auth/.
use vantric.Prelude.{◌≡◌, refl, false, none, some, [], ◌∷◌}
use vantric.Prelude.Text.{Text, text, starts}
use vantric.Client.Wire.{get, send, send_octets, upload, render}
use vantric.Client.Queries.{GuestKind}
use vantric.Client.Roots.{lead, decide, render-starts}
use vantric.Client.Calls.{Call, request_of, answers_for_itself}
use vantric.Client.Accounts.{AccountCall, account_request, login}
use vantric.Client.Catalog.{CatalogCall, catalog_request, list_images, list_nodes}
use vantric.Client.Estate.{EstateCall, estate_request, overview}
use vantric.Client.Gateway.{GatewayCall, gateway_request, list_ai_account_types}
use vantric.Client.Docker.{DockerCall, docker_request, set_branding}
use vantric.Client.Backups.{BackupCall, backup_request, take_backup}
use vantric.Client.Keys.{KeyCall, key_request, ai_provider_types}
use vantric.Client.Network.{NetworkCall, network_request, list_hypervisors}
use vantric.Client.Identity.{IdentityCall, identity_request, list_identity_provider_types}
use vantric.Client.Databases.{DatabaseCall, database_request, list_database_engines}
use vantric.Client.Zones.{ZoneCall, zone_request, list_dns_provider_types}
use vantric.Client.Instances.{InstanceCall, instance_request, list_instances}
use vantric.Client.Storage.{StorageCall, storage_request, list_buckets, list_storage_users}
use vantric.Client.Containers.{ContainerCall, container_request, list_containers}

accounts :
    {J : Type 0} (c : AccountCall J)
    → decide (text "/auth/") (lead (account_request c).path)
      ≡ some (answers_for_itself (Call.accounts c))
unfolding account_request get send lead decide text answers_for_itself
accounts (login x0 x1) = refl
accounts c = refl

catalog :
    {J : Type 0} (c : CatalogCall J)
    → decide (text "/auth/") (lead (catalog_request c).path) ≡ some false
unfolding catalog_request get send upload lead decide text
catalog (list_nodes none) = refl
catalog (list_nodes (some [])) = refl
catalog (list_nodes (some (d ∷ s))) = refl
catalog (list_images none) = refl
catalog (list_images (some [])) = refl
catalog (list_images (some (d ∷ s))) = refl
catalog c = refl

estate :
    {J : Type 0} (c : EstateCall J)
    → decide (text "/auth/") (lead (estate_request c).path) ≡ some false
unfolding estate_request get send send_octets upload lead decide text
estate overview = refl
estate c = refl

gateway :
    {J : Type 0} (c : GatewayCall J)
    → decide (text "/auth/") (lead (gateway_request c).path) ≡ some false
unfolding gateway_request get send lead decide text
gateway list_ai_account_types = refl
gateway c = refl

docker :
    {J : Type 0} (c : DockerCall J)
    → decide (text "/auth/") (lead (docker_request c).path) ≡ some false
unfolding docker_request get send send_octets lead decide text
docker (set_branding x0) = refl
docker c = refl

backups :
    {J : Type 0} (c : BackupCall J)
    → decide (text "/auth/") (lead (backup_request c).path) ≡ some false
unfolding backup_request get send lead decide text
backups (take_backup GuestKind.instances x1 x2) = refl
backups (take_backup GuestKind.containers x1 x2) = refl
backups c = refl

keys :
    {J : Type 0} (c : KeyCall J) → decide (text "/auth/") (lead (key_request c).path) ≡ some false
unfolding key_request get send lead decide text
keys ai_provider_types = refl
keys c = refl

network :
    {J : Type 0} (c : NetworkCall J)
    → decide (text "/auth/") (lead (network_request c).path) ≡ some false
unfolding network_request get send lead decide text
network list_hypervisors = refl
network c = refl

identity :
    {J : Type 0} (c : IdentityCall J)
    → decide (text "/auth/") (lead (identity_request c).path) ≡ some false
unfolding identity_request get send lead decide text
identity list_identity_provider_types = refl
identity c = refl

databases :
    {J : Type 0} (c : DatabaseCall J)
    → decide (text "/auth/") (lead (database_request c).path) ≡ some false
unfolding database_request get send lead decide text
databases list_database_engines = refl
databases c = refl

zones :
    {J : Type 0} (c : ZoneCall J) → decide (text "/auth/") (lead (zone_request c).path) ≡ some false
unfolding zone_request get send lead decide text
zones list_dns_provider_types = refl
zones c = refl

instances :
    {J : Type 0} (c : InstanceCall J)
    → decide (text "/auth/") (lead (instance_request c).path) ≡ some false
unfolding instance_request get send lead decide text
instances list_instances = refl
instances c = refl

storage :
    {J : Type 0} (c : StorageCall J)
    → decide (text "/auth/") (lead (storage_request c).path) ≡ some false
unfolding storage_request get send lead decide text
storage (list_buckets none) = refl
storage (list_buckets (some [])) = refl
storage (list_buckets (some (d ∷ s))) = refl
storage (list_storage_users none) = refl
storage (list_storage_users (some [])) = refl
storage (list_storage_users (some (d ∷ s))) = refl
storage c = refl

containers :
    {J : Type 0} (c : ContainerCall J)
    → decide (text "/auth/") (lead (container_request c).path) ≡ some false
unfolding container_request get send lead decide text
containers list_containers = refl
containers c = refl

request_of-decided :
    {J : Type 0} (c : Call J)
    → decide (text "/auth/") (lead (request_of c).path) ≡ some (answers_for_itself c)
unfolding request_of answers_for_itself
request_of-decided (Call.accounts c) = accounts c
request_of-decided (Call.catalog c) = catalog c
request_of-decided (Call.estate c) = estate c
request_of-decided (Call.gateway c) = gateway c
request_of-decided (Call.docker c) = docker c
request_of-decided (Call.backups c) = backups c
request_of-decided (Call.keys c) = keys c
request_of-decided (Call.network c) = network c
request_of-decided (Call.identity c) = identity c
request_of-decided (Call.databases c) = databases c
request_of-decided (Call.zones c) = zones c
request_of-decided (Call.instances c) = instances c
request_of-decided (Call.storage c) = storage c
request_of-decided (Call.containers c) = containers c

-- Whatever its arguments, the path of a call of `api` starts with "/auth/" exactly when the call is
-- one of the five that answer for their own 401.
pub request_of-starts_auth :
    {J : Type 0} (c : Call J) (path : Text)
    → render (request_of c).path ≡ some path
    → starts (text "/auth/") path ≡ answers_for_itself c
request_of-starts_auth c path rendered =
    render-starts (text "/auth/") (request_of c).path (answers_for_itself c) path
      (request_of-decided c) rendered
