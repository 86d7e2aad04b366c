-- ===== src/Cmdclass.antt =====
-- internal/cmdclass/cmdclass.go: the risk class of a shell command.
pub mod Risk
pub mod Scan
pub mod Words
pub mod Options
pub mod Targets
pub mod Urls
pub mod Rm
pub mod Small
pub mod Journal
pub mod Ip
pub mod Docker
pub mod Transfer
pub mod Curl
pub mod Wget
pub mod Commands
pub mod Classify
