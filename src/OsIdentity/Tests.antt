-- ===== src/OsIdentity/Tests.antt =====
-- Concrete names of templates.
use vantric.Prelude.{◌≡◌, refl, false, some, [], ◌∷◌}
use vantric.Prelude.Pattern.{search_in, search_from, exec_at, take_more}
use vantric.Prelude.Text.{text, same, join, has, is_empty}
use vantric.OsIdentity.Matchers.{version_of, unpack_version}
use vantric.OsIdentity.{
  TemplateIdentity, releases, codename_of, proper_name, identity_known, identity,
  ubuntu_from_codename, first_identity, os_identity, template_identity,
}
use vantric.OsIdentity.Named.{Found, template_identity_named}

debian :
    os_identity (text "debian-13-cloudinit")
    ≡ some (record {
      family = text "Debian";
      version = text "13";
      codename = text "trixie";
      label = text "Debian GNU/Linux 13 (trixie)";
    })
unfolding os_identity first_identity search_in search_from exec_at take_more version_of identity
    identity_known codename_of proper_name join same text
debian = refl

noble :
    os_identity (text "noble-server-cloudimg-amd64")
    ≡ some (record {
      family = text "Ubuntu";
      version = text "24.04";
      codename = text "noble";
      label = text "Ubuntu 24.04 (noble)";
    })
unfolding os_identity first_identity ubuntu_from_codename search_in search_from exec_at take_more
    version_of identity identity_known codename_of proper_name join same text
noble = refl

alpine :
    os_identity (text "alpine-321")
    ≡ some (record {
      family = text "Alpine";
      version = text "3.21";
      codename = [];
      label = text "Alpine Linux 3.21";
    })
unfolding os_identity first_identity search_in search_from exec_at take_more version_of
    unpack_version identity identity_known codename_of proper_name join same text has
alpine = refl

abbrev cluster_node : TemplateIdentity
cluster_node = template_identity (text "k8s-node-base") (text "") (text "os-debian-12" ∷ [])

template_identity_named_example :
    (is_empty cluster_node.title ≡ false)
    × Found cluster_node.family cluster_node.version releases cluster_node.codename
unfolding text
template_identity_named_example =
    template_identity_named (text "k8s-node-base") (text "") (text "os-debian-12" ∷ []) refl

-- The word for the processor holds the name of another system, which is tried first.
freebsd_on_arm :
    os_identity (text "FreeBSD-14.1-RELEASE-arm64-aarch64")
    ≡ some (record { family = text "Arch"; version = []; codename = []; label = text "Arch Linux" })
unfolding os_identity first_identity search_in search_from exec_at take_more version_of identity
    identity_known codename_of proper_name join same text
freebsd_on_arm = refl
