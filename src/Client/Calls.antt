-- ===== src/Client/Calls.antt =====
-- `api` of frontend/src/api/client.ts as a whole: one call of any of its groups, and its request.
pub mod Auth
pub mod Reads
use vantric.Prelude.{Bool, true, false}
use vantric.Client.Wire.{Request}
use vantric.Client.Accounts.{
  AccountCall, account_request, login, logout, me, change_own_password, auth_providers,
}
use vantric.Client.Catalog.{CatalogCall, catalog_request}
use vantric.Client.Estate.{EstateCall, estate_request}
use vantric.Client.Gateway.{GatewayCall, gateway_request}
use vantric.Client.Docker.{DockerCall, docker_request}
use vantric.Client.Backups.{BackupCall, backup_request}
use vantric.Client.Keys.{KeyCall, key_request}
use vantric.Client.Network.{NetworkCall, network_request}
use vantric.Client.Identity.{IdentityCall, identity_request}
use vantric.Client.Databases.{DatabaseCall, database_request}
use vantric.Client.Zones.{ZoneCall, zone_request}
use vantric.Client.Instances.{InstanceCall, instance_request}
use vantric.Client.Storage.{StorageCall, storage_request}
use vantric.Client.Containers.{ContainerCall, container_request}

pub data Call (J : Type 0) : Type 0 where
  accounts : AccountCall J → Call J
  catalog : CatalogCall J → Call J
  estate : EstateCall J → Call J
  gateway : GatewayCall J → Call J
  docker : DockerCall J → Call J
  backups : BackupCall J → Call J
  keys : KeyCall J → Call J
  network : NetworkCall J → Call J
  identity : IdentityCall J → Call J
  databases : DatabaseCall J → Call J
  zones : ZoneCall J → Call J
  instances : InstanceCall J → Call J
  storage : StorageCall J → Call J
  containers : ContainerCall J → Call J

unfoldable pub request_of : {J : Type 0} → Call J → Request J
request_of (accounts c) = account_request c
request_of (catalog c) = catalog_request c
request_of (estate c) = estate_request c
request_of (gateway c) = gateway_request c
request_of (docker c) = docker_request c
request_of (backups c) = backup_request c
request_of (keys c) = key_request c
request_of (network c) = network_request c
request_of (identity c) = identity_request c
request_of (databases c) = database_request c
request_of (zones c) = zone_request c
request_of (instances c) = instance_request c
request_of (storage c) = storage_request c
request_of (containers c) = container_request c

-- The calls that answer for their own 401: the sign-in page's, and the session query's.
unfoldable pub answers_for_itself : {J : Type 0} → Call J → Bool
answers_for_itself (accounts (login email password)) = true
answers_for_itself (accounts logout) = true
answers_for_itself (accounts me) = true
answers_for_itself (accounts (change_own_password current_password new_password)) = true
answers_for_itself (accounts auth_providers) = true
answers_for_itself c = false
