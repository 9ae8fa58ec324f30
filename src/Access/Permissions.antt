-- ===== src/Access/Permissions.antt =====
-- The permission slugs (src/auth/rbac/permission-matrix.ts), compared by their position.
use hpl_back.Base.{ℕ, Enum}

pub data Permission : Type 0 where
  auth_me users_read users_create users_write users_manage references_read : Permission
  references_create references_update references_delete products_read : Permission
  products_create products_update products_delete products_manage_prices : Permission
  products_read_purchase_price clients_read clients_read_all clients_create : Permission
  clients_update clients_delete leads_read leads_read_all leads_create : Permission
  leads_update leads_delete leads_qualify leads_commercial_qualify leads_assign : Permission
  tasks_read tasks_read_all tasks_create tasks_update tasks_delete deals_read : Permission
  deals_read_all deals_create deals_update deals_delete deals_create_offer : Permission
  deals_approve_offer deals_stage_exception deals_override_terminal orders_read : Permission
  orders_create orders_cancel payments_create payments_confirm deliveries_create : Permission
  inventory_read inventory_manage warehouse_purchases_plan : Permission
  warehouse_purchases_receive files_upload files_read reports_read : Permission
  reports_manage_plans audit_read admin_queues panel_catalog_read : Permission
  panel_catalog_manage calculations_read calculations_read_all : Permission
  calculations_create calculations_update calculations_delete quotes_read : Permission
  quotes_read_all quotes_create quotes_update quotes_approve : Permission
  quotes_client_accept quotes_mark_customer_accepted supplier_orders_manage : Permission
  supplier_orders_confirm_client_delivery installation_schedule : Permission
  installation_assess installation_confirm_supervisor currency_rates_read : Permission
  currency_rates_manage panel_pricing_manage engineering_read engineering_assign : Permission
  engineering_return engineering_complete engineering_update_technical : Permission
  facade_pricing_read_purchase facade_pricing_manage_offers : Permission
  facade_pricing_prepare facade_pricing_approve installation_read : Permission
  installation_update_technical installation_pricing_read_cost : Permission
  installation_pricing_manage_contractors installation_pricing_manage_rates : Permission
  installation_pricing_prepare installation_pricing_approve : Permission

abbrev pub permission_position : Permission → ℕ
permission_position Permission.auth_me = 0
permission_position Permission.users_read = 1
permission_position Permission.users_create = 2
permission_position Permission.users_write = 3
permission_position Permission.users_manage = 4
permission_position Permission.references_read = 5
permission_position Permission.references_create = 6
permission_position Permission.references_update = 7
permission_position Permission.references_delete = 8
permission_position Permission.products_read = 9
permission_position Permission.products_create = 10
permission_position Permission.products_update = 11
permission_position Permission.products_delete = 12
permission_position Permission.products_manage_prices = 13
permission_position Permission.products_read_purchase_price = 14
permission_position Permission.clients_read = 15
permission_position Permission.clients_read_all = 16
permission_position Permission.clients_create = 17
permission_position Permission.clients_update = 18
permission_position Permission.clients_delete = 19
permission_position Permission.leads_read = 20
permission_position Permission.leads_read_all = 21
permission_position Permission.leads_create = 22
permission_position Permission.leads_update = 23
permission_position Permission.leads_delete = 24
permission_position Permission.leads_qualify = 25
permission_position Permission.leads_commercial_qualify = 26
permission_position Permission.leads_assign = 27
permission_position Permission.tasks_read = 28
permission_position Permission.tasks_read_all = 29
permission_position Permission.tasks_create = 30
permission_position Permission.tasks_update = 31
permission_position Permission.tasks_delete = 32
permission_position Permission.deals_read = 33
permission_position Permission.deals_read_all = 34
permission_position Permission.deals_create = 35
permission_position Permission.deals_update = 36
permission_position Permission.deals_delete = 37
permission_position Permission.deals_create_offer = 38
permission_position Permission.deals_approve_offer = 39
permission_position Permission.deals_stage_exception = 40
permission_position Permission.deals_override_terminal = 41
permission_position Permission.orders_read = 42
permission_position Permission.orders_create = 43
permission_position Permission.orders_cancel = 44
permission_position Permission.payments_create = 45
permission_position Permission.payments_confirm = 46
permission_position Permission.deliveries_create = 47
permission_position Permission.inventory_read = 48
permission_position Permission.inventory_manage = 49
permission_position Permission.warehouse_purchases_plan = 50
permission_position Permission.warehouse_purchases_receive = 51
permission_position Permission.files_upload = 52
permission_position Permission.files_read = 53
permission_position Permission.reports_read = 54
permission_position Permission.reports_manage_plans = 55
permission_position Permission.audit_read = 56
permission_position Permission.admin_queues = 57
permission_position Permission.panel_catalog_read = 58
permission_position Permission.panel_catalog_manage = 59
permission_position Permission.calculations_read = 60
permission_position Permission.calculations_read_all = 61
permission_position Permission.calculations_create = 62
permission_position Permission.calculations_update = 63
permission_position Permission.calculations_delete = 64
permission_position Permission.quotes_read = 65
permission_position Permission.quotes_read_all = 66
permission_position Permission.quotes_create = 67
permission_position Permission.quotes_update = 68
permission_position Permission.quotes_approve = 69
permission_position Permission.quotes_client_accept = 70
permission_position Permission.quotes_mark_customer_accepted = 71
permission_position Permission.supplier_orders_manage = 72
permission_position Permission.supplier_orders_confirm_client_delivery = 73
permission_position Permission.installation_schedule = 74
permission_position Permission.installation_assess = 75
permission_position Permission.installation_confirm_supervisor = 76
permission_position Permission.currency_rates_read = 77
permission_position Permission.currency_rates_manage = 78
permission_position Permission.panel_pricing_manage = 79
permission_position Permission.engineering_read = 80
permission_position Permission.engineering_assign = 81
permission_position Permission.engineering_return = 82
permission_position Permission.engineering_complete = 83
permission_position Permission.engineering_update_technical = 84
permission_position Permission.facade_pricing_read_purchase = 85
permission_position Permission.facade_pricing_manage_offers = 86
permission_position Permission.facade_pricing_prepare = 87
permission_position Permission.facade_pricing_approve = 88
permission_position Permission.installation_read = 89
permission_position Permission.installation_update_technical = 90
permission_position Permission.installation_pricing_read_cost = 91
permission_position Permission.installation_pricing_manage_contractors = 92
permission_position Permission.installation_pricing_manage_rates = 93
permission_position Permission.installation_pricing_prepare = 94
permission_position Permission.installation_pricing_approve = 95

instance abbrev pub permission_enum : Enum Permission
permission_enum = record { position = permission_position }
