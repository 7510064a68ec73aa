-- ===== src/Policy.antt =====
-- infra/terraform/scripts: the two policies that a Terraform plan must pass before it is applied.
pub mod Address
pub mod Plan
pub mod Parts
pub mod Workloads
pub mod Verdict
pub mod Recovery
