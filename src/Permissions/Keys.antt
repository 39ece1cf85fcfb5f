-- ===== src/Permissions/Keys.antt =====
-- The permission keys of permissions.go: the constants, the catalogue in its order, the defaults of
-- regular users, and what the older, coarser keys stand for.
use lan_qin_email.Prelude.{List, [], ◌∷◌}
use lan_qin_email.Prelude.Text.{Text, codes}

abbrev pub permission_mail_access : Text
permission_mail_access = codes "mail.access"

abbrev pub permission_mail_read : Text
permission_mail_read = codes "mail.messages.read"

abbrev pub permission_mail_send : Text
permission_mail_send = codes "mail.messages.send"

abbrev pub permission_mail_drafts : Text
permission_mail_drafts = codes "mail.messages.drafts"

abbrev pub permission_mail_schedule : Text
permission_mail_schedule = codes "mail.messages.schedule"

abbrev pub permission_mail_organize : Text
permission_mail_organize = codes "mail.messages.organize"

abbrev pub permission_mail_labels : Text
permission_mail_labels = codes "mail.labels.manage"

abbrev pub permission_mail_attachments : Text
permission_mail_attachments = codes "mail.attachments.download"

abbrev pub permission_mail_contacts : Text
permission_mail_contacts = codes "mail.contacts.manage"

abbrev pub permission_mail_signatures : Text
permission_mail_signatures = codes "mail.signatures.manage"

abbrev pub permission_mail_rules : Text
permission_mail_rules = codes "mail.rules.manage"

abbrev pub permission_mail_blocked : Text
permission_mail_blocked = codes "mail.blocked_senders.manage"

abbrev pub permission_mail_stats : Text
permission_mail_stats = codes "mail.stats.view"

abbrev pub permission_mailbox_apply : Text
permission_mailbox_apply = codes "mail.mailboxes.apply"

abbrev pub permission_admin_overview : Text
permission_admin_overview = codes "admin.overview.view"

abbrev pub permission_users_view : Text
permission_users_view = codes "admin.users.view"

abbrev pub permission_users_create : Text
permission_users_create = codes "admin.users.create"

abbrev pub permission_users_update : Text
permission_users_update = codes "admin.users.update"

abbrev pub permission_users_delete : Text
permission_users_delete = codes "admin.users.delete"

abbrev pub permission_users_reset_password : Text
permission_users_reset_password = codes "admin.users.reset_password"

abbrev pub permission_groups_view : Text
permission_groups_view = codes "admin.permission_groups.view"

abbrev pub permission_groups_create : Text
permission_groups_create = codes "admin.permission_groups.create"

abbrev pub permission_groups_update : Text
permission_groups_update = codes "admin.permission_groups.update"

abbrev pub permission_groups_delete : Text
permission_groups_delete = codes "admin.permission_groups.delete"

abbrev pub permission_domains_view : Text
permission_domains_view = codes "admin.domains.view"

abbrev pub permission_domains_create : Text
permission_domains_create = codes "admin.domains.create"

abbrev pub permission_domains_update : Text
permission_domains_update = codes "admin.domains.update"

abbrev pub permission_domains_delete : Text
permission_domains_delete = codes "admin.domains.delete"

abbrev pub permission_dns_view : Text
permission_dns_view = codes "admin.dns.view"

abbrev pub permission_dns_check : Text
permission_dns_check = codes "admin.dns.check"

abbrev pub permission_mailboxes_view : Text
permission_mailboxes_view = codes "admin.mailboxes.view"

abbrev pub permission_mailboxes_create : Text
permission_mailboxes_create = codes "admin.mailboxes.create"

abbrev pub permission_mailboxes_update : Text
permission_mailboxes_update = codes "admin.mailboxes.update"

abbrev pub permission_mailboxes_delete : Text
permission_mailboxes_delete = codes "admin.mailboxes.delete"

abbrev pub permission_aliases_view : Text
permission_aliases_view = codes "admin.aliases.view"

abbrev pub permission_aliases_create : Text
permission_aliases_create = codes "admin.aliases.create"

abbrev pub permission_aliases_update : Text
permission_aliases_update = codes "admin.aliases.update"

abbrev pub permission_aliases_delete : Text
permission_aliases_delete = codes "admin.aliases.delete"

abbrev pub permission_messages_view : Text
permission_messages_view = codes "admin.messages.view"

abbrev pub permission_messages_read : Text
permission_messages_read = codes "admin.messages.read"

abbrev pub permission_messages_attachment : Text
permission_messages_attachment = codes "admin.messages.attachments"

abbrev pub permission_settings_view : Text
permission_settings_view = codes "admin.settings.view"

abbrev pub permission_settings_update : Text
permission_settings_update = codes "admin.settings.update"

abbrev pub permission_settings_test_smtp : Text
permission_settings_test_smtp = codes "admin.settings.test_smtp"

abbrev pub permission_templates_view : Text
permission_templates_view = codes "admin.templates.view"

abbrev pub permission_templates_update : Text
permission_templates_update = codes "admin.templates.update"

abbrev pub permission_templates_reset : Text
permission_templates_reset = codes "admin.templates.reset"

abbrev pub permission_group_super_admin : Text
permission_group_super_admin = codes "pg_super_admin"

abbrev pub permission_group_regular : Text
permission_group_regular = codes "pg_regular_user"

-- `allPermissionKeys`: the keys of `permissionCatalogItems`, whose labels are left out
unfoldable pub all_permission_keys : List Text
all_permission_keys =
    permission_mail_access ∷ permission_mail_read ∷ permission_mail_send ∷ permission_mail_drafts
    ∷ permission_mail_schedule ∷ permission_mail_organize ∷ permission_mail_labels
    ∷ permission_mail_attachments ∷ permission_mail_contacts ∷ permission_mail_signatures
    ∷ permission_mail_rules ∷ permission_mail_blocked ∷ permission_mail_stats
    ∷ permission_mailbox_apply ∷ permission_admin_overview ∷ permission_users_view
    ∷ permission_users_create ∷ permission_users_update ∷ permission_users_delete
    ∷ permission_users_reset_password ∷ permission_groups_view ∷ permission_groups_create
    ∷ permission_groups_update ∷ permission_groups_delete ∷ permission_domains_view
    ∷ permission_domains_create ∷ permission_domains_update ∷ permission_domains_delete
    ∷ permission_dns_view ∷ permission_dns_check ∷ permission_mailboxes_view
    ∷ permission_mailboxes_create ∷ permission_mailboxes_update ∷ permission_mailboxes_delete
    ∷ permission_aliases_view ∷ permission_aliases_create ∷ permission_aliases_update
    ∷ permission_aliases_delete ∷ permission_messages_view ∷ permission_messages_read
    ∷ permission_messages_attachment ∷ permission_settings_view ∷ permission_settings_update
    ∷ permission_settings_test_smtp ∷ permission_templates_view ∷ permission_templates_update
    ∷ permission_templates_reset ∷ []

-- `regularUserDefaultPermissions`
unfoldable pub regular_user_default_permissions : List Text
regular_user_default_permissions =
    permission_mail_access ∷ permission_mail_read ∷ permission_mail_send ∷ permission_mail_drafts
    ∷ permission_mail_schedule ∷ permission_mail_organize ∷ permission_mail_labels
    ∷ permission_mail_attachments ∷ permission_mail_contacts ∷ permission_mail_signatures
    ∷ permission_mail_rules ∷ permission_mail_blocked ∷ permission_mail_stats
    ∷ permission_mailbox_apply ∷ []

-- the map `legacyPermissionExpansions`
unfoldable pub legacy_permission_expansions : List (Text × List Text)
legacy_permission_expansions =
    (codes "mail", regular_user_default_permissions)
    ∷ (
      codes "mail.messages",
      permission_mail_access ∷ permission_mail_read ∷ permission_mail_send ∷ permission_mail_drafts
          ∷ permission_mail_schedule ∷ permission_mail_organize ∷ permission_mail_attachments ∷ [],
    )
    ∷ (
      codes "mail.labels",
      permission_mail_access ∷ permission_mail_read ∷ permission_mail_labels ∷ [],
    )
    ∷ (codes "mail.contacts", permission_mail_contacts ∷ [])
    ∷ (codes "mail.signatures", permission_mail_signatures ∷ [])
    ∷ (codes "mail.rules", permission_mail_rules ∷ permission_mail_blocked ∷ [])
    ∷ (codes "mail.mailboxes", permission_mailbox_apply ∷ [])
    ∷ (codes "admin.overview", permission_admin_overview ∷ [])
    ∷ (
      codes "admin.users",
      permission_users_view ∷ permission_users_create ∷ permission_users_update
          ∷ permission_users_delete ∷ permission_users_reset_password ∷ permission_groups_view ∷ [],
    )
    ∷ (
      codes "admin.permission_groups",
      permission_groups_view ∷ permission_groups_create ∷ permission_groups_update
          ∷ permission_groups_delete ∷ [],
    )
    ∷ (
      codes "admin.domains",
      permission_domains_view ∷ permission_domains_create ∷ permission_domains_update
          ∷ permission_domains_delete ∷ [],
    )
    ∷ (codes "admin.dns", permission_domains_view ∷ permission_dns_view ∷ permission_dns_check ∷ [])
    ∷ (
      codes "admin.mailboxes",
      permission_users_view ∷ permission_domains_view ∷ permission_mailboxes_view
          ∷ permission_mailboxes_create ∷ permission_mailboxes_update ∷ permission_mailboxes_delete
          ∷ [],
    )
    ∷ (
      codes "admin.aliases",
      permission_domains_view ∷ permission_aliases_view ∷ permission_aliases_create
          ∷ permission_aliases_update ∷ permission_aliases_delete ∷ [],
    )
    ∷ (
      codes "admin.messages",
      permission_mailboxes_view ∷ permission_messages_view ∷ permission_messages_read
          ∷ permission_messages_attachment ∷ [],
    )
    ∷ (
      codes "admin.settings",
      permission_domains_view ∷ permission_settings_view ∷ permission_settings_update
          ∷ permission_settings_test_smtp ∷ permission_templates_view ∷ permission_templates_update
          ∷ permission_templates_reset ∷ [],
    )
    ∷ []
