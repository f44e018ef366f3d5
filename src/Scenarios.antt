-- ===== src/Scenarios.antt =====
-- Runs of the model on concrete data: a training job, an upload, two members, two episodes, the
-- documents of a job, a device's credential, an archive, and three runs.
mod Data
mod Jobs
mod Runs
mod Uploads
mod Members
mod Launches
mod Partitions
mod Documents
mod Credentials
mod Archives
mod Components
mod Connections
mod Datasets
