-- ===== src/Client/Calls/Reads.antt =====
-- What the requests of frontend/src/api/client.ts have in common: a rooted path, and no body on what
-- reads or deletes.
use vantric.Prelude.{◌≡◌, refl, Bool, true, false, some, none, [], ◌∷◌, ◌⊎◌, arith}
use vantric.Prelude.Text.{Text, text, starts}
use vantric.Client.Wire.{
  Request, Method, get_method, post, put, delete, Body, no_body, get, send, send_octets, upload,
  render,
}
use vantric.Client.Queries.{GuestKind}
use vantric.Client.Roots.{lead, decide, render-starts}
use vantric.Client.Calls.{Call, request_of}
use vantric.Client.Accounts.{AccountCall, account_request, login}
use vantric.Client.Catalog.{CatalogCall, catalog_request, list_images, list_nodes}
use vantric.Client.Estate.{EstateCall, estate_request, overview}
use vantric.Client.Gateway.{GatewayCall, gateway_request, list_ai_account_types}
use vantric.Client.Docker.{DockerCall, docker_request, set_branding}
use vantric.Client.Backups.{BackupCall, backup_request, take_backup}
use vantric.Client.Keys.{KeyCall, key_request, ai_provider_types}
use vantric.Client.Network.{NetworkCall, network_request, list_hypervisors}
use vantric.Client.Identity.{IdentityCall, identity_request, list_identity_provider_types}
use vantric.Client.Databases.{DatabaseCall, database_request, list_database_engines}
use vantric.Client.Zones.{ZoneCall, zone_request, list_dns_provider_types}
use vantric.Client.Instances.{InstanceCall, instance_request, list_instances}
use vantric.Client.Storage.{StorageCall, storage_request, list_buckets, list_storage_users}
use vantric.Client.Containers.{ContainerCall, container_request, list_containers}

abbrev may_carry : {J : Type 0} → Method → Body J → Bool
may_carry m no_body = true
may_carry post b = true
may_carry put b = true
may_carry get_method b = false
may_carry delete b = false

-- The head of the path is "/", and the method may carry the body.
unfoldable is_sound : {J : Type 0} → Request J → Bool
unfolding decide lead text
is_sound r = elim (decide (text "/") (lead r.path)) [
  | some true ↦ may_carry r.method r.body
  | some false ↦ false
  | none ↦ false
]

accounts : {J : Type 0} (c : AccountCall J) → is_sound (account_request c) ≡ true
unfolding account_request get send is_sound lead decide text
accounts (login x0 x1) = refl
accounts c = refl

catalog : {J : Type 0} (c : CatalogCall J) → is_sound (catalog_request c) ≡ true
unfolding catalog_request get send upload is_sound lead decide text
catalog (list_nodes none) = refl
catalog (list_nodes (some [])) = refl
catalog (list_nodes (some (d ∷ s))) = refl
catalog (list_images none) = refl
catalog (list_images (some [])) = refl
catalog (list_images (some (d ∷ s))) = refl
catalog c = refl

estate : {J : Type 0} (c : EstateCall J) → is_sound (estate_request c) ≡ true
unfolding estate_request get send send_octets upload is_sound lead decide text
estate overview = refl
estate c = refl

gateway : {J : Type 0} (c : GatewayCall J) → is_sound (gateway_request c) ≡ true
unfolding gateway_request get send is_sound lead decide text
gateway list_ai_account_types = refl
gateway c = refl

docker : {J : Type 0} (c : DockerCall J) → is_sound (docker_request c) ≡ true
unfolding docker_request get send send_octets is_sound lead decide text
docker (set_branding x0) = refl
docker c = refl

backups : {J : Type 0} (c : BackupCall J) → is_sound (backup_request c) ≡ true
unfolding backup_request get send is_sound lead decide text
backups (take_backup GuestKind.instances x1 x2) = refl
backups (take_backup GuestKind.containers x1 x2) = refl
backups c = refl

keys : {J : Type 0} (c : KeyCall J) → is_sound (key_request c) ≡ true
unfolding key_request get send is_sound lead decide text
keys ai_provider_types = refl
keys c = refl

network : {J : Type 0} (c : NetworkCall J) → is_sound (network_request c) ≡ true
unfolding network_request get send is_sound lead decide text
network list_hypervisors = refl
network c = refl

identity : {J : Type 0} (c : IdentityCall J) → is_sound (identity_request c) ≡ true
unfolding identity_request get send is_sound lead decide text
identity list_identity_provider_types = refl
identity c = refl

databases : {J : Type 0} (c : DatabaseCall J) → is_sound (database_request c) ≡ true
unfolding database_request get send is_sound lead decide text
databases list_database_engines = refl
databases c = refl

zones : {J : Type 0} (c : ZoneCall J) → is_sound (zone_request c) ≡ true
unfolding zone_request get send is_sound lead decide text
zones list_dns_provider_types = refl
zones c = refl

instances : {J : Type 0} (c : InstanceCall J) → is_sound (instance_request c) ≡ true
unfolding instance_request get send is_sound lead decide text
instances list_instances = refl
instances c = refl

storage : {J : Type 0} (c : StorageCall J) → is_sound (storage_request c) ≡ true
unfolding storage_request get send is_sound lead decide text
storage (list_buckets none) = refl
storage (list_buckets (some [])) = refl
storage (list_buckets (some (d ∷ s))) = refl
storage (list_storage_users none) = refl
storage (list_storage_users (some [])) = refl
storage (list_storage_users (some (d ∷ s))) = refl
storage c = refl

containers : {J : Type 0} (c : ContainerCall J) → is_sound (container_request c) ≡ true
unfolding container_request get send is_sound lead decide text
containers list_containers = refl
containers c = refl

request_of_sound : {J : Type 0} (c : Call J) → is_sound (request_of c) ≡ true
unfolding request_of
request_of_sound (Call.accounts c) = accounts c
request_of_sound (Call.catalog c) = catalog c
request_of_sound (Call.estate c) = estate c
request_of_sound (Call.gateway c) = gateway c
request_of_sound (Call.docker c) = docker c
request_of_sound (Call.backups c) = backups c
request_of_sound (Call.keys c) = keys c
request_of_sound (Call.network c) = network c
request_of_sound (Call.identity c) = identity c
request_of_sound (Call.databases c) = databases c
request_of_sound (Call.zones c) = zones c
request_of_sound (Call.instances c) = instances c
request_of_sound (Call.storage c) = storage c
request_of_sound (Call.containers c) = containers c

sound-rooted :
    {J : Type 0} (r : Request J) → is_sound r ≡ true → decide (text "/") (lead r.path) ≡ some true
unfolding is_sound
sound-rooted r h = ground arith

sound-carries : {J : Type 0} (r : Request J) → is_sound r ≡ true → may_carry r.method r.body ≡ true
unfolding is_sound
sound-carries r h = ground arith

-- Whatever its arguments, the path of a call of `api` starts with "/", so that "/api/v1" before it
-- is a path of the server.
pub request_of-rooted :
    {J : Type 0} (c : Call J) (path : Text)
    → render (request_of c).path ≡ some path
    → starts (text "/") path ≡ true
request_of-rooted c path rendered =
    render-starts (text "/") (request_of c).path true path
      (sound-rooted (request_of c) (request_of_sound c)) rendered

carries-no_body :
    {J : Type 0} (m : Method) (b : Body J)
    → may_carry m b ≡ true
    → (m ≡ get_method) ⊎ (m ≡ delete)
    → b ≡ no_body
carries-no_body m b h e = ground arith

-- A call of `api` that reads or deletes sends no body.
pub request_of-no_body :
    {J : Type 0} (c : Call J)
    → ((request_of c).method ≡ get_method) ⊎ ((request_of c).method ≡ delete)
    → (request_of c).body ≡ no_body
request_of-no_body c m =
    carries-no_body (request_of c).method (request_of c).body
      (sound-carries (request_of c) (request_of_sound c)) m
