-- ===== src/Account.antt =====
-- What a tenant's plan includes, what an employee may do, and which devices work: the modules
-- backend/src/modules/plans and employees, and company-device.service.ts.
pub mod Plans
pub mod Permissions
pub mod Devices
pub mod Deletion
