-- ===== src/Access/Matrix.antt =====
-- Which role may do what (src/auth/rbac/permission-matrix.ts).
use hpl_back.Base.{Bool, List, [], ◌∷◌, includes}
use hpl_back.Domain.{RoleName}
use hpl_back.Access.Permissions.{Permission, permission_enum}

-- The slugs, without their descriptions.
abbrev pub permission_definitions : List Permission
permission_definitions =
    Permission.auth_me ∷ Permission.users_read ∷ Permission.users_create ∷ Permission.users_write
    ∷ Permission.users_manage ∷ Permission.references_read ∷ Permission.references_create
    ∷ Permission.references_update ∷ Permission.references_delete ∷ Permission.products_read
    ∷ Permission.products_create ∷ Permission.products_update ∷ Permission.products_delete
    ∷ Permission.products_manage_prices ∷ Permission.products_read_purchase_price
    ∷ Permission.clients_read ∷ Permission.clients_read_all ∷ Permission.clients_create
    ∷ Permission.clients_update ∷ Permission.clients_delete ∷ Permission.leads_read
    ∷ Permission.leads_read_all ∷ Permission.leads_create ∷ Permission.leads_update
    ∷ Permission.leads_delete ∷ Permission.leads_qualify ∷ Permission.leads_commercial_qualify
    ∷ Permission.leads_assign ∷ Permission.tasks_read ∷ Permission.tasks_read_all
    ∷ Permission.tasks_create ∷ Permission.tasks_update ∷ Permission.tasks_delete
    ∷ Permission.deals_read ∷ Permission.deals_read_all ∷ Permission.deals_create
    ∷ Permission.deals_update ∷ Permission.deals_delete ∷ Permission.deals_create_offer
    ∷ Permission.deals_approve_offer ∷ Permission.deals_stage_exception
    ∷ Permission.deals_override_terminal ∷ Permission.orders_read ∷ Permission.orders_create
    ∷ Permission.orders_cancel ∷ Permission.payments_create ∷ Permission.payments_confirm
    ∷ Permission.deliveries_create ∷ Permission.inventory_read ∷ Permission.inventory_manage
    ∷ Permission.warehouse_purchases_plan ∷ Permission.warehouse_purchases_receive
    ∷ Permission.files_upload ∷ Permission.files_read ∷ Permission.reports_read
    ∷ Permission.reports_manage_plans ∷ Permission.audit_read ∷ Permission.admin_queues
    ∷ Permission.panel_catalog_read ∷ Permission.panel_catalog_manage ∷ Permission.calculations_read
    ∷ Permission.calculations_read_all ∷ Permission.calculations_create
    ∷ Permission.calculations_update ∷ Permission.calculations_delete ∷ Permission.quotes_read
    ∷ Permission.quotes_read_all ∷ Permission.quotes_create ∷ Permission.quotes_update
    ∷ Permission.quotes_approve ∷ Permission.quotes_client_accept
    ∷ Permission.quotes_mark_customer_accepted ∷ Permission.supplier_orders_manage
    ∷ Permission.supplier_orders_confirm_client_delivery ∷ Permission.installation_schedule
    ∷ Permission.installation_assess ∷ Permission.installation_confirm_supervisor
    ∷ Permission.currency_rates_read ∷ Permission.currency_rates_manage
    ∷ Permission.panel_pricing_manage ∷ Permission.engineering_read ∷ Permission.engineering_assign
    ∷ Permission.engineering_return ∷ Permission.engineering_complete
    ∷ Permission.engineering_update_technical ∷ Permission.facade_pricing_read_purchase
    ∷ Permission.facade_pricing_manage_offers ∷ Permission.facade_pricing_prepare
    ∷ Permission.facade_pricing_approve ∷ Permission.installation_read
    ∷ Permission.installation_update_technical ∷ Permission.installation_pricing_read_cost
    ∷ Permission.installation_pricing_manage_contractors
    ∷ Permission.installation_pricing_manage_rates ∷ Permission.installation_pricing_prepare
    ∷ Permission.installation_pricing_approve ∷ []

abbrev pub target_role_names : List RoleName
target_role_names =
    RoleName.admin ∷ RoleName.director ∷ RoleName.head ∷ RoleName.manager ∷ RoleName.accountant
    ∷ RoleName.storekeeper ∷ RoleName.engineer ∷ []

abbrev pub admin_permissions : List Permission
admin_permissions =
    Permission.auth_me ∷ Permission.users_read ∷ Permission.users_create ∷ Permission.users_write
    ∷ Permission.users_manage ∷ Permission.admin_queues ∷ []

abbrev pub director_permissions : List Permission
director_permissions =
    Permission.auth_me ∷ Permission.users_read ∷ Permission.references_read
    ∷ Permission.products_read ∷ Permission.products_read_purchase_price ∷ Permission.clients_read
    ∷ Permission.clients_read_all ∷ Permission.leads_read ∷ Permission.leads_read_all
    ∷ Permission.tasks_read ∷ Permission.tasks_read_all ∷ Permission.deals_read
    ∷ Permission.deals_read_all ∷ Permission.orders_read ∷ Permission.files_read
    ∷ Permission.reports_read ∷ Permission.reports_manage_plans ∷ Permission.audit_read
    ∷ Permission.panel_catalog_read ∷ Permission.calculations_read
    ∷ Permission.calculations_read_all ∷ Permission.quotes_read ∷ Permission.quotes_read_all
    ∷ Permission.inventory_read ∷ Permission.warehouse_purchases_plan
    ∷ Permission.currency_rates_read ∷ Permission.currency_rates_manage
    ∷ Permission.supplier_orders_manage ∷ Permission.supplier_orders_confirm_client_delivery
    ∷ Permission.installation_schedule ∷ Permission.installation_confirm_supervisor
    ∷ Permission.installation_assess ∷ Permission.facade_pricing_read_purchase
    ∷ Permission.facade_pricing_manage_offers ∷ Permission.facade_pricing_prepare
    ∷ Permission.facade_pricing_approve ∷ Permission.installation_read
    ∷ Permission.installation_pricing_read_cost ∷ Permission.installation_pricing_manage_contractors
    ∷ Permission.installation_pricing_manage_rates ∷ Permission.installation_pricing_prepare
    ∷ Permission.installation_pricing_approve ∷ []

abbrev pub head_permissions : List Permission
head_permissions =
    Permission.auth_me ∷ Permission.users_read ∷ Permission.references_read
    ∷ Permission.references_create ∷ Permission.references_update ∷ Permission.references_delete
    ∷ Permission.products_read ∷ Permission.products_create ∷ Permission.products_update
    ∷ Permission.products_delete ∷ Permission.products_manage_prices
    ∷ Permission.products_read_purchase_price ∷ Permission.clients_read
    ∷ Permission.clients_read_all ∷ Permission.clients_create ∷ Permission.clients_update
    ∷ Permission.clients_delete ∷ Permission.leads_read ∷ Permission.leads_read_all
    ∷ Permission.leads_create ∷ Permission.leads_update ∷ Permission.leads_delete
    ∷ Permission.leads_qualify ∷ Permission.leads_commercial_qualify ∷ Permission.leads_assign
    ∷ Permission.tasks_read ∷ Permission.tasks_read_all ∷ Permission.tasks_create
    ∷ Permission.tasks_update ∷ Permission.tasks_delete ∷ Permission.deals_read
    ∷ Permission.deals_read_all ∷ Permission.deals_create ∷ Permission.deals_update
    ∷ Permission.deals_delete ∷ Permission.deals_create_offer ∷ Permission.deals_approve_offer
    ∷ Permission.deals_stage_exception ∷ Permission.deals_override_terminal ∷ Permission.orders_read
    ∷ Permission.orders_create ∷ Permission.orders_cancel ∷ Permission.payments_create
    ∷ Permission.deliveries_create ∷ Permission.inventory_read ∷ Permission.inventory_manage
    ∷ Permission.warehouse_purchases_plan ∷ Permission.files_upload ∷ Permission.files_read
    ∷ Permission.reports_read ∷ Permission.audit_read ∷ Permission.panel_catalog_read
    ∷ Permission.panel_catalog_manage ∷ Permission.panel_pricing_manage
    ∷ Permission.calculations_read ∷ Permission.calculations_read_all
    ∷ Permission.calculations_create ∷ Permission.calculations_update
    ∷ Permission.calculations_delete ∷ Permission.quotes_read ∷ Permission.quotes_read_all
    ∷ Permission.quotes_create ∷ Permission.quotes_update ∷ Permission.quotes_approve
    ∷ Permission.quotes_mark_customer_accepted ∷ Permission.currency_rates_read
    ∷ Permission.supplier_orders_manage ∷ Permission.supplier_orders_confirm_client_delivery
    ∷ Permission.installation_schedule ∷ Permission.installation_confirm_supervisor
    ∷ Permission.installation_assess ∷ Permission.engineering_assign
    ∷ Permission.facade_pricing_read_purchase ∷ Permission.facade_pricing_manage_offers
    ∷ Permission.facade_pricing_prepare ∷ Permission.facade_pricing_approve
    ∷ Permission.installation_read ∷ Permission.installation_pricing_read_cost
    ∷ Permission.installation_pricing_manage_contractors
    ∷ Permission.installation_pricing_manage_rates ∷ Permission.installation_pricing_prepare
    ∷ Permission.installation_pricing_approve ∷ []

abbrev pub manager_permissions : List Permission
manager_permissions =
    Permission.auth_me ∷ Permission.references_read ∷ Permission.products_read
    ∷ Permission.clients_read ∷ Permission.clients_create ∷ Permission.clients_update
    ∷ Permission.leads_read ∷ Permission.leads_create ∷ Permission.leads_update
    ∷ Permission.leads_qualify ∷ Permission.tasks_read ∷ Permission.tasks_create
    ∷ Permission.tasks_update ∷ Permission.deals_read ∷ Permission.deals_create
    ∷ Permission.deals_update ∷ Permission.deals_create_offer ∷ Permission.orders_read
    ∷ Permission.orders_create ∷ Permission.orders_cancel ∷ Permission.payments_create
    ∷ Permission.deliveries_create ∷ Permission.files_upload ∷ Permission.files_read
    ∷ Permission.audit_read ∷ Permission.panel_catalog_read ∷ Permission.panel_catalog_manage
    ∷ Permission.engineering_assign ∷ Permission.calculations_read ∷ Permission.calculations_create
    ∷ Permission.calculations_update ∷ Permission.calculations_delete ∷ Permission.quotes_read
    ∷ Permission.quotes_create ∷ Permission.quotes_update ∷ Permission.quotes_client_accept
    ∷ Permission.quotes_mark_customer_accepted ∷ Permission.currency_rates_read
    ∷ Permission.supplier_orders_confirm_client_delivery ∷ []

abbrev pub accountant_permissions : List Permission
accountant_permissions =
    Permission.auth_me ∷ Permission.products_read ∷ Permission.clients_read
    ∷ Permission.clients_read_all ∷ Permission.deals_read ∷ Permission.deals_read_all
    ∷ Permission.orders_read ∷ Permission.payments_confirm ∷ Permission.files_read
    ∷ Permission.audit_read ∷ Permission.currency_rates_read ∷ []

abbrev pub storekeeper_permissions : List Permission
storekeeper_permissions =
    Permission.auth_me ∷ Permission.references_read ∷ Permission.products_read
    ∷ Permission.orders_read ∷ Permission.deliveries_create ∷ Permission.inventory_read
    ∷ Permission.inventory_manage ∷ Permission.warehouse_purchases_receive ∷ []

abbrev pub engineer_permissions : List Permission
engineer_permissions =
    Permission.auth_me ∷ Permission.leads_read ∷ Permission.clients_read ∷ Permission.tasks_read
    ∷ Permission.tasks_update ∷ Permission.files_read ∷ Permission.engineering_read
    ∷ Permission.engineering_return ∷ Permission.engineering_complete
    ∷ Permission.engineering_update_technical ∷ Permission.installation_read
    ∷ Permission.installation_update_technical ∷ []

abbrev pub role_permission_slugs : RoleName → List Permission
role_permission_slugs RoleName.admin = admin_permissions
role_permission_slugs RoleName.director = director_permissions
role_permission_slugs RoleName.head = head_permissions
role_permission_slugs RoleName.manager = manager_permissions
role_permission_slugs RoleName.accountant = accountant_permissions
role_permission_slugs RoleName.storekeeper = storekeeper_permissions
role_permission_slugs RoleName.engineer = engineer_permissions

abbrev pub business_mutation_permissions : List Permission
business_mutation_permissions =
    Permission.payments_confirm ∷ Permission.reports_manage_plans ∷ Permission.quotes_approve
    ∷ Permission.quotes_client_accept ∷ Permission.quotes_mark_customer_accepted
    ∷ Permission.leads_commercial_qualify ∷ Permission.currency_rates_manage
    ∷ Permission.panel_pricing_manage ∷ Permission.supplier_orders_manage
    ∷ Permission.supplier_orders_confirm_client_delivery ∷ Permission.warehouse_purchases_plan
    ∷ Permission.warehouse_purchases_receive ∷ Permission.installation_schedule
    ∷ Permission.installation_assess ∷ Permission.installation_confirm_supervisor
    ∷ Permission.engineering_assign ∷ Permission.engineering_return
    ∷ Permission.engineering_complete ∷ Permission.engineering_update_technical
    ∷ Permission.facade_pricing_manage_offers ∷ Permission.facade_pricing_prepare
    ∷ Permission.facade_pricing_approve ∷ Permission.installation_update_technical
    ∷ Permission.installation_pricing_manage_contractors
    ∷ Permission.installation_pricing_manage_rates ∷ Permission.installation_pricing_prepare
    ∷ Permission.installation_pricing_approve ∷ []

abbrev pub role_has_permission : RoleName → Permission → Bool
role_has_permission role slug = includes (role_permission_slugs role) slug
