-- ===== src/Samples.antt =====
-- samples/src/bin: the example programs, each as a program over the process and the thread that it
-- runs on. `Program` has what they share; every other child is about the file of its name.
pub mod Program
pub mod BasicScope
pub mod CrossProcess
pub mod AsyncScopes
pub mod ScopeChain
pub mod DactorPropagation
pub mod DualCrossProcess
pub mod VersionedRegistration
pub mod VersionMigration
pub mod RegisterMacro
pub mod DualBridging
pub mod DualAsyncCtx
pub mod AsyncTasks
pub mod CustomCodec
pub mod DualSyncCtx
pub mod TypedKeys
pub mod SizeLimits
pub mod FeatureFlags
pub mod CrossThread
pub mod Runs
pub mod Remote
pub mod WorkerPool
pub mod Local
