-- ===== src/Nav/Routes.antt =====
-- frontend/src/App.tsx: the addresses of the console, who each page is shown to, and what it shows. A page
-- is named by its component; which route an address matches is the router's business.
pub mod Start
pub mod Stores
pub mod Services
pub mod Directory
pub mod Compute
use vantric.Prelude.Text.{Text}

-- `RequireRole`, `RequireRole admin`, or neither
pub data Guard : Type 0 where
  anyone editors admins : Guard

pub data Target : Type 0 where
  page navigate : Text → Target

pub data Route : Type 0 where
  route : (path : Text) → Guard → Target → Route
